-- ===== src/Desktop/Dispatch.antt =====
-- crates/machine-fabric-runtime/src/desktop.rs: `command`, and the actions that a session dispatches
-- to the desktop, between `begin` and `end`.
use mathlib.Core.Option
use machine_fabric.Base.{
  ℕ, String, Bool, true, false, ◌&&◌, ◌||◌, not, Option, none, some, List, map, keep, length, any,
  find, is_some, if◌then◌else◌, Result, ok, err, after, ◌==◌,
}
use machine_fabric.Desktop.Queue.{
  Job, DesktopQueue, DesktopError, Recovery, is_active, is_live, is_terminal,
}
use machine_fabric.Desktop.Gate.{availability, is_text}
use machine_fabric.Desktop.Promotion.{
  Readings, Answer, saving, gated, authorized, promote, refresh_availability_policy,
}
use machine_fabric.Desktop.Commands.{
  Field, Params, Inputs, SessionAction, gets, flag_or, is_over, holds, maintenance, submit, claim,
  session, recover,
}

-- `job_value`: the job, whether the user authorized it, and whether input is allowed, where the job is
-- gated.
pub record JobValue : Type 0 where
  pub job : Job
  pub user_authorized : Bool
  pub input_allowed : Option Bool

unfoldable pub job_value : DesktopQueue → Readings → Job → JobValue
job_value queue r job =
    let allowed =
      is_active job
      && not queue.blocked
      && not (is_over job r.now r.granted_at)
      && (availability r.snapshot r.snapshot_now || authorized r queue job) in
    record {
      job = record job { requires_availability = gated queue job };
      user_authorized = authorized r queue job;
      input_allowed = if gated queue job then some allowed else none;
    }

-- The answer of `desktop.list`; each job goes without its token.
pub record Listing : Type 0 where
  pub jobs : List JobValue
  pub history_count : ℕ
  pub total_count : ℕ
  pub history_included : Bool
  pub availability_required : Bool
  pub notification_wakes : ℕ
  pub polling_wakes : ℕ
  pub available : Bool
  pub blocked : Bool
  pub in_flight : Bool
  pub last_recovery : Option Recovery
  pub maintenance_owner : Option String
  pub safe_point : Bool

abbrev pub without_token : JobValue → JobValue
without_token value = record value { job = record value.job { token = "" } }

unfoldable pub listing : DesktopQueue → Readings → Bool → Listing
unfolding job_value
listing queue r include_terminal = record {
  jobs =
      map (λ job. without_token (job_value queue r job))
        (keep (λ job. include_terminal || not (is_terminal job)) queue.jobs);
  history_count = length (keep is_terminal queue.jobs);
  total_count = length queue.jobs;
  history_included = include_terminal;
  availability_required = queue.availability_required;
  notification_wakes = queue.notification_wakes;
  polling_wakes = queue.polling_wakes;
  available = availability r.snapshot r.snapshot_now;
  blocked = queue.blocked;
  in_flight = queue.in_flight;
  last_recovery = queue.last_recovery;
  maintenance_owner = queue.maintenance_owner;
  safe_point =
      is_some queue.maintenance_owner
      && not queue.blocked
      && not queue.in_flight
      && not (any is_live queue.jobs);
}

pub data Action : Type 0 where
  maintains submits claims recovers unknown : Action
  lists : Field Bool → Action
  on_session : SessionAction → Action

pub data Reply : Type 0 where
  done : Reply
  described : Option JobValue → Reply
  listed : Listing → Reply

abbrev pub reads_only : Action → Bool
reads_only (lists include_terminal) = true
reads_only (on_session gets) = true
reads_only _ = false

abbrev pub replies {ℓ} :
    {A : Type ℓ} → (A → DesktopQueue → Reply) → Result DesktopError A × DesktopQueue → Answer Reply
replies f (ok a, queue) = (ok (f a queue), queue)
replies f (err e, queue) = (err e, queue)

-- The job of the credentials that a command on one session gives.
abbrev pub named_by : Option String → Option String → DesktopQueue → Option Job
named_by (some token) (some owner) queue = find (holds owner token) queue.jobs
named_by (some token) none queue = none
named_by none owner queue = none

abbrev pub named : Params → DesktopQueue → Option Job
named params queue = named_by params.token params.owner queue

-- What `command` does once the queue was advanced.
unfoldable pub perform : Action → Params → Inputs → DesktopQueue → Answer Reply
unfolding maintenance submit claim recover session listing promote
perform maintains params i queue = after (maintenance params i queue) λ _ queue'.
    after (promote i.last queue')
      λ _ queue''. (ok (listed (listing queue'' i.shown false)), queue'')
perform submits params i queue =
    replies (λ job queue'. described (Option.map (job_value queue' i.shown) job))
      (submit params i queue)
perform claims params i queue = replies (λ _ _. done) (claim params i queue)
perform recovers params i queue = replies (λ _ _. done) (recover params i queue)
perform unknown params i queue = (err DesktopError.unknown_action, queue)
perform (lists include_terminal) params i queue =
    after (flag_or include_terminal true, queue)
      λ include queue'. (ok (listed (listing queue' i.shown include)), queue')
perform (on_session action) params i queue =
    replies (λ _ queue'. described (Option.map (job_value queue' i.shown) (named params queue')))
      (session action params i queue)

unfoldable pub command : Action → Params → Inputs → DesktopQueue → Answer Reply
unfolding promote perform
command action params i queue =
    if queue.recovery_inspection_active && not (reads_only action)
    then (err DesktopError.inspect_busy, queue)
    else after (promote i.before queue) λ _ queue'. perform action params i queue'

-- What a caller of `begin` names in `_desktop`, where it has one.
pub record Credentials : Type 0 where
  pub has_desktop : Bool
  pub token : Option String
  pub owner : Option String

-- An action of the session that has the desktop.
unfoldable pub admits :
    DesktopQueue → Credentials → Readings → ℕ → Job → Result DesktopError (Unit {0})
admits queue who r later job =
    if not (is_active job) || is_over job r.now later
    then err DesktopError.draining_session
    else if not (is_text who.token job.token) || not (is_text who.owner job.owner)
    then err DesktopError.busy
    else if gated queue job
        && not (availability r.snapshot r.snapshot_now)
        && not (authorized r queue job)
    then err DesktopError.unavailable
    else ok tt

-- An action without a session.
unfoldable pub admits_legacy : DesktopQueue → String → Credentials → Result DesktopError (Unit {0})
admits_legacy queue action who =
    if is_some queue.maintenance_owner
    then err DesktopError.maintenance
    else if queue.availability_required || action == "computer-use.call" || who.has_desktop
    then err DesktopError.session_required
    else ok tt

-- Whether the action may start, by the session that has the desktop, if any has.
unfoldable pub admission :
    DesktopQueue → String → Credentials → Readings → ℕ → Option Job → Result DesktopError (Unit {0})
unfolding admits admits_legacy
admission queue action who r later none = admits_legacy queue action who
admission queue action who r later (some job) = admits queue who r later job

abbrev pub fly : Bool → DesktopQueue → Answer (Unit {0})
fly saved queue = saving saved (record queue { in_flight = true })

unfoldable pub begin : DesktopQueue → String → Credentials → Readings → ℕ → Bool → Answer (Unit {0})
unfolding refresh_availability_policy admission
begin queue action who r later saved =
    if queue.blocked
    then (err DesktopError.recovery_required, queue)
    else if queue.in_flight
    then (err DesktopError.busy, queue)
    else after (refresh_availability_policy r.provider_file r.policy_saved queue) λ _ queue'.
      after (admission queue' action who r later (find is_live queue'.jobs), queue')
        λ _ queue''. fly saved queue''

-- The `sessionId` that `begin` gives to `computer-use.call`: the id and the epoch of the session.
unfoldable pub session_id : String → Option Job → Option (String × ℕ)
session_id action none = none
session_id action (some job) =
    if action == "computer-use.call" then some (job.id, job.epoch) else none

unfoldable pub end : DesktopQueue → Bool → Bool → Answer (Unit {0})
end queue uncertain saved =
    saving saved (record queue { in_flight = false; blocked = queue.blocked || uncertain })

-- `validate_recovery_inspection_params`: whether the parameters are an object with no other keys, the
-- two flags, and the path.
unfoldable pub validate_recovery_inspection_params :
    String → Bool → Bool → Bool → Bool → Option String → Result DesktopError (Unit {0})
validate_recovery_inspection_params action is_object only_known inspects prompts_not path =
    if not (action == "ui.native-inspect")
    then err DesktopError.inspect_action_invalid
    else if not is_object
    then err DesktopError.invalid_params
    else if not only_known
        || not inspects
        || not prompts_not
        || is_text path ""
        || not (is_some path)
    then err DesktopError.inspect_params_invalid
    else ok tt

unfoldable pub begin_recovery_inspection :
    DesktopQueue → Result DesktopError (Unit {0}) → Answer (Unit {0})
begin_recovery_inspection queue valid =
    after (valid, queue)
      λ _ queue'.
        if queue'.recovery_inspection_active
        then (err DesktopError.inspect_busy, queue')
        else if not queue'.blocked || queue'.in_flight
        then (err DesktopError.recovery_required, queue')
        else (ok tt, record queue' { recovery_inspection_active = true })

unfoldable pub end_recovery_inspection : DesktopQueue → DesktopQueue
end_recovery_inspection queue = record queue { recovery_inspection_active = false }
