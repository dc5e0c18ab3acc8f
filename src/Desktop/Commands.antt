-- ===== src/Desktop/Commands.antt =====
-- crates/machine-fabric-runtime/src/desktop.rs: the commands of the queue. A parameter of a command is
-- what serde_json's `as_str`, `as_u64` and `as_bool` give for it.
use machine_fabric.Base.{
  ℕ, String, Bool, true, false, ◌&&◌, ◌||◌, not, Option, none, some, [], ◌∷◌, ◌++◌, length, find,
  update_first, ltb, leb, saturating_add, if◌then◌else◌, Result, ok, err, after, ◌==◌,
}
use machine_fabric.Desktop.Queue.{
  JobState, queued, active, draining, cancelled, interrupted, Job, DesktopQueue, DesktopError,
  field, is_active, is_live, overdue,
}
use machine_fabric.Desktop.Gate.{availability}
use machine_fabric.Desktop.Promotion.{Readings, Answer, saving, gated, authorized, promote}

-- A parameter that may be left out, or be there with a wrong type.
pub data Field (A : Type 0) : Type 0 where
  missing malformed : Field A
  given : A → Field A

pub record Params : Type 0 where
  pub owner : Option String
  pub request_key : Option String
  pub token : Option String
  pub consumer_id : Option String
  pub enabled : Option Bool
  pub ttl_ms : Option ℕ
  pub requires_availability : Field Bool
  pub deadline_at : Field ℕ
  pub confirm_desktop_reset : Bool

-- What a command reads: for its first and for its second `promote`, and between them the clock, two
-- new identifiers and whether the queue is written; `last` is for the `promote` of the listing that
-- ends `desktop.maintenance`, and `shown` for the values that are answered.
pub record Inputs : Type 0 where
  pub before : Readings
  pub now : ℕ
  pub later : ℕ
  pub stamped : ℕ
  pub job_uuid : String
  pub token_uuid : String
  pub saved : Bool
  pub next : Readings
  pub last : Readings
  pub shown : Readings

abbrev pub owned_by_other : Option String → String → Bool
owned_by_other none owner = false
owned_by_other (some current) owner = not (current == owner)

abbrev pub set_maintenance : DesktopQueue → String → Option Bool → Inputs → Answer (Unit {0})
set_maintenance queue owner none i = (err DesktopError.invalid_params, queue)
set_maintenance queue owner (some enabled) i =
    let queue' = record queue { maintenance_owner = if enabled then some owner else none } in
    if owned_by_other queue.maintenance_owner owner
    then (err DesktopError.maintenance_owned, queue)
    else after (saving i.saved queue') λ _ queue''. promote i.next queue''

abbrev pub with_field {ℓ} :
    {A : Type ℓ}
    → Option String
    → DesktopQueue
    → (String → Result DesktopError A × DesktopQueue)
    → Result DesktopError A × DesktopQueue
with_field s queue f = after (field s, queue) λ text _. f text

-- `desktop.maintenance`, without the listing that it answers with.
unfoldable pub maintenance : Params → Inputs → DesktopQueue → Answer (Unit {0})
unfolding field promote
maintenance params i queue =
    with_field params.owner queue λ owner. set_maintenance queue owner params.enabled i

abbrev pub or_default : Option ℕ → ℕ → ℕ
or_default none n = n
or_default (some m) n = m

abbrev pub flag_or : Field Bool → Bool → Result DesktopError Bool
flag_or missing b = ok b
flag_or malformed b = err DesktopError.invalid_params
flag_or (given c) b = ok c

abbrev pub future : Field ℕ → ℕ → Result DesktopError (Option ℕ)
future missing now = ok none
future malformed now = err DesktopError.invalid_params
future (given at) now = if ltb now at then ok (some at) else err DesktopError.invalid_params

abbrev pub same_request : String → String → Job → Bool
same_request owner key job = job.owner == owner && job.request_key == key

unfoldable pub add_job :
    DesktopQueue → String → String → ℕ → Bool → Option ℕ → Inputs → Answer (Unit {0})
add_job queue owner key ttl requires_availability deadline_at i =
    after
      (saving i.saved (record queue {
        jobs =
            queue.jobs
            ++ record {
              id = i.job_uuid;
              owner = owner;
              request_key = key;
              token = i.token_uuid;
              state = queued;
              epoch = 0;
              ttl_ms = ttl;
              submitted_at = i.later;
              expires_at = 0;
              requires_availability = requires_availability || queue.availability_required;
              deadline_at = deadline_at;
              claimed_by = none;
            }
              ∷ [];
      }))
      λ _ queue'. promote i.next queue'

-- What follows when no job of the request is there.
unfoldable pub submit_new : DesktopQueue → String → String → Params → Inputs → Answer (Unit {0})
unfolding add_job
submit_new queue owner key params i =
    let ttl = or_default params.ttl_ms 900000 in
    if leb 10000 (length queue.jobs)
    then (err DesktopError.queue_full, queue)
    else if not (leb 1000 ttl && leb ttl 3600000)
    then (err DesktopError.invalid_params, queue)
    else after (flag_or params.requires_availability false, queue)
        λ requires _.
          after (future params.deadline_at i.now, queue)
            λ deadline _. add_job queue owner key ttl requires deadline i

abbrev pub submit_found :
    DesktopQueue → String → String → Params → Inputs → Option Job → Answer (Option Job)
submit_found queue owner key params i (some job) = (ok (some job), queue)
submit_found queue owner key params i none =
    after (submit_new queue owner key params i) λ _ queue'. (ok none, queue')

-- `desktop.submit`: the job of an earlier request with the same key, or a new one, which is the last.
unfoldable pub submit : Params → Inputs → DesktopQueue → Answer (Option Job)
unfolding field
submit params i queue = with_field params.owner queue λ owner.
    with_field params.request_key queue
      λ key. submit_found queue owner key params i (find (same_request owner key) queue.jobs)

abbrev pub holds : String → String → Job → Bool
holds owner token job = job.owner == owner && job.token == token

abbrev pub is_over : Job → ℕ → ℕ → Bool
is_over job now later = leb job.expires_at now || overdue job.deadline_at later

-- A claim that cannot be written is taken back.
abbrev pub claim_saving : Bool → DesktopQueue → DesktopQueue → Answer (Unit {0})
claim_saving true old queue = (ok tt, queue)
claim_saving false old queue = (err DesktopError.state_failed, old)

abbrev pub claim_by : String → Job → Job
claim_by consumer job = record job { claimed_by = some consumer }

unfoldable pub claim_job :
    DesktopQueue → String → String → String → Inputs → Job → Answer (Unit {0})
claim_job queue owner token consumer i job =
    let available =
      availability i.next.snapshot i.next.snapshot_now || authorized i.next queue job in
    if queue.blocked || not (is_active job) || is_over job i.now i.later
    then (err DesktopError.session_inactive, queue)
    else if gated queue job && not available
    then (err DesktopError.unavailable, queue)
    else if owned_by_other job.claimed_by consumer
    then (err DesktopError.already_claimed, queue)
    else claim_saving i.saved queue
        (record queue { jobs = update_first (holds owner token) (claim_by consumer) queue.jobs })

abbrev pub claim_found :
    DesktopQueue → String → String → String → Inputs → Option Job → Answer (Unit {0})
claim_found queue owner token consumer i none = (err DesktopError.session_invalid, queue)
claim_found queue owner token consumer i (some job) = claim_job queue owner token consumer i job

-- `desktop.claim`; `next` holds its readings of the two gates.
unfoldable pub claim : Params → Inputs → DesktopQueue → Answer (Unit {0})
unfolding field
claim params i queue = with_field params.owner queue λ owner. with_field params.token queue λ token.
    with_field params.consumer_id queue
      λ consumer. claim_found queue owner token consumer i (find (holds owner token) queue.jobs)

-- The commands on one session, after `job` was found.
pub data SessionAction : Type 0 where
  gets renews finishes cancels : SessionAction

abbrev pub stopped : JobState → JobState
stopped queued = cancelled
stopped active = draining
stopped state = state

unfoldable pub session_job :
    DesktopQueue → SessionAction → String → String → Inputs → Job → Answer (Unit {0})
session_job queue gets owner token i job = (ok tt, queue)
session_job queue renews owner token i job =
    if not (is_active job) || is_over job i.now i.later || queue.blocked
    then (err DesktopError.session_inactive, queue)
    else saving i.saved (record queue {
      jobs =
          update_first (holds owner token)
            (λ found. record found { expires_at = saturating_add i.stamped found.ttl_ms })
            queue.jobs;
    })
session_job queue finishes owner token i job = saving i.saved (record queue {
  jobs =
      update_first (holds owner token) (λ found. record found { state = stopped found.state })
        queue.jobs;
})
session_job queue cancels owner token i job = saving i.saved (record queue {
  jobs =
      update_first (holds owner token) (λ found. record found { state = stopped found.state })
        queue.jobs;
})

abbrev pub session_found :
    DesktopQueue → SessionAction → String → String → Inputs → Option Job → Answer (Unit {0})
session_found queue action owner token i none = (err DesktopError.session_invalid, queue)
session_found queue action owner token i (some job) = session_job queue action owner token i job

unfoldable pub session : SessionAction → Params → Inputs → DesktopQueue → Answer (Unit {0})
unfolding field
session action params i queue = with_field params.token queue λ token.
    with_field params.owner queue
      λ owner. session_found queue action owner token i (find (holds owner token) queue.jobs)

abbrev pub interrupt : Job → Job
interrupt job = record job { state = interrupted }

unfoldable pub recover : Params → Inputs → DesktopQueue → Answer (Unit {0})
unfolding promote
recover params i queue =
    if not queue.blocked || queue.in_flight || not params.confirm_desktop_reset
    then (err DesktopError.recovery_required, queue)
    else after
        (saving i.saved
          (record queue { jobs = update_first is_live interrupt queue.jobs; blocked = false }))
        λ _ queue'. promote i.next queue'
