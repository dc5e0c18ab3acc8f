-- ===== src/Tests/Desktop.antt =====
-- A desktop queue with three jobs at concrete inputs.
use machine_fabric.Base.{
  ℕ, ◌+◌, ◌%◌, ◌^◌, String, ◌≡◌, refl, Bool, true, false, ◌||◌, none, some, List, [], ◌∷◌, any,
  arith, Pairs, ◌++◌, saturating_add, inl, ok, err,
}
use machine_fabric.Desktop.Queue.{
  Job, queued, active, completed, DesktopQueue, empty, busy, is_live,
}
use machine_fabric.Desktop.Promotion.{Readings, promote, restarted, open_with_boot_id}
use machine_fabric.Desktop.Commands.{Params, Inputs, missing, finishes}
use machine_fabric.Desktop.Dispatch.{Credentials, submits, on_session, begin}
use machine_fabric.Desktop.Runs.{
  Call, commands, cleans_up, cleaned_up, reconciles, begins, ends_action, run,
}
use machine_fabric.Desktop.Live.{IsExclusive}
use machine_fabric.Desktop.Exclusive.{run-IsExclusive}
use machine_fabric.Desktop.Ages.{Aged, owned}
use machine_fabric.Desktop.Idle.{IsIdle, AllWritten}
use machine_fabric.Desktop.Grants.{promote_bars}
use machine_fabric.Desktop.Turns.{promote_grants}
use machine_fabric.Desktop.Admission.{Admits, begin-Admits, reopened_safe}

abbrev first : Job
first = record {
  id = "a";
  owner = "alice";
  request_key = "k1";
  token = "t1";
  state = completed;
  epoch = 1;
  ttl_ms = 60000;
  submitted_at = 10;
  expires_at = 60010;
  requires_availability = false;
  deadline_at = none;
  claimed_by = none;
}

abbrev second : Job
second = record first { id = "b"; token = "t2"; request_key = "k2"; state = queued; epoch = 0 }

abbrev third : Job
third = record second { id = "c"; token = "t3"; request_key = "k3"; deadline_at = some 500 }

abbrev waiting : DesktopQueue
waiting = record empty { epoch = 1; jobs = first ∷ second ∷ third ∷ [] }

abbrev readings : Readings
readings = record {
  provider_file = false;
  policy_saved = true;
  now = 100;
  expiry_saved = true;
  snapshot = none;
  snapshot_now = 100;
  receipt = λ job. none;
  receipt_now = λ job. 100;
  granted_at = 101;
  grant_saved = true;
}

abbrev params : Params
params = record {
  owner = some "alice";
  request_key = some "k4";
  token = some "t2";
  consumer_id = none;
  enabled = none;
  ttl_ms = none;
  requires_availability = missing;
  deadline_at = missing;
  confirm_desktop_reset = true;
}

abbrev inputs : Inputs
inputs = record {
  before = readings;
  now = 102;
  later = 103;
  stamped = 104;
  job_uuid = "d";
  token_uuid = "t4";
  saved = true;
  next = readings;
  last = readings;
  shown = readings;
}

abbrev who : Credentials
who = record { has_desktop = true; token = some "t2"; owner = some "alice" }

abbrev calls : List Call
calls =
    commands submits params inputs
    ∷ begins "ui.click" who readings 105 true
    ∷ ends_action false true
    ∷ commands (on_session finishes) params inputs
    ∷ cleans_up 106 107
    ∷ cleaned_up true 108 true readings
    ∷ reconciles true readings
    ∷ []

run-IsExclusive_example : IsExclusive (run waiting calls)
run-IsExclusive_example = run-IsExclusive waiting calls (omega arith)

readings_written : AllWritten readings
readings_written = record { policy = refl; expiry = refl; grant = refl }

waiting-IsIdle : IsIdle waiting
waiting-IsIdle = record {
  not_inspected = refl;
  not_maintained = refl;
  not_blocked = refl;
  not_flying = refl;
  not_owned = (
    (λ e. absurd (cc e), λ e. absurd (cc e)),
    ((λ e. absurd (cc e), λ e. absurd (cc e)), ((λ e. absurd (cc e), λ e. absurd (cc e)), tt)),
  );
}

promote_grants_example :
    ((promote readings waiting).0 ≡ ok tt)
    × ((promote readings waiting).1.epoch ≡ (1 + 1) % 2 ^ 64)
    × (earlier' : List Job) × (rest' : List Job) × ((promote readings waiting).1.jobs
        ≡ earlier'
          ++ record second {
            epoch = (1 + 1) % 2 ^ 64;
            state = active;
            expires_at = saturating_add 101 60000;
          }
            ∷ rest')
    × Pairs (Aged 100) (first ∷ []) earlier'
    × Pairs (Aged 100) (third ∷ []) rest'
promote_grants_example =
    promote_grants readings waiting (first ∷ []) (third ∷ []) second waiting-IsIdle readings_written
      refl (inl (λ e. absurd (cc e)), tt) refl (λ at e. absurd (cc e)) (inl (refl, refl, refl))

abbrev serving : DesktopQueue
serving = record waiting {
  jobs = first ∷ record second { state = active; expires_at = 60101 } ∷ third ∷ [];
}

promote_bars_example :
    Pairs (Aged 100) serving.jobs (promote readings serving).1.jobs
    × ((promote readings serving).1.epoch ≡ 1)
promote_bars_example =
    promote_bars readings serving
      (owned 1 (record second { state = active; expires_at = 60101 }) refl (inl refl))

serving_begins :
    begin serving "ui.click" who readings 105 true ≡ (ok tt, record serving { in_flight = true })
unfolding begin
serving_begins = refl

begin-Admits_example :
    (serving.blocked ≡ false)
    × (serving.in_flight ≡ false)
    × Admits serving "ui.click" who readings 105
    × ((action' : String) (who' : Credentials) (r' : Readings) (later' : ℕ) (saved' : Bool)
        → begin (record serving { in_flight = true }) action' who' r' later' saved'
          ≡ (err busy, record serving { in_flight = true }))
begin-Admits_example =
    begin-Admits serving (record serving { in_flight = true }) "ui.click" who readings 105 true
      serving_begins

-- The executor died during an action, and came back on the same boot.
abbrev stored : DesktopQueue
stored = record serving { in_flight = true; boot_id = some "boot1" }

abbrev reopened_queue : DesktopQueue
reopened_queue = record stored { path = some "queue.json"; in_flight = false; blocked = true }

stored_opens :
    open_with_boot_id (ok (some stored)) "queue.json" (some "boot1") 200 true ≡ ok reopened_queue
unfolding open_with_boot_id
stored_opens = refl

reopened_safe_example :
    (reopened_queue.in_flight ≡ false)
    × (restarted stored.boot_id (some "boot1") ≡ true
        → (reopened_queue.blocked ≡ false) × (any is_live reopened_queue.jobs ≡ false))
    × (restarted stored.boot_id (some "boot1") ≡ false
        → stored.in_flight || any is_live stored.jobs ≡ true
        → reopened_queue.blocked ≡ true)
reopened_safe_example =
    reopened_safe stored reopened_queue "queue.json" (some "boot1") 200 true stored_opens
