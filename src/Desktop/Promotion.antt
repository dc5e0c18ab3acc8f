-- ===== src/Desktop/Promotion.antt =====
-- crates/machine-fabric-runtime/src/desktop.rs: the grant of the desktop to the next session, the
-- cleanup after one, and the opening of a stored queue.
use machine_fabric.Base.{
  ℕ, ◌+◌, ◌-◌, ◌%◌, ◌^◌, String, Bool, true, false, ◌&&◌, ◌||◌, not, Option, none, some, List, map,
  any, keep, length, find, position, get_elem?, update_at, update_first, leb, is_some,
  saturating_add, if◌then◌else◌, Result, ok, err, after, ◌==◌,
}
use machine_fabric.Desktop.Queue.{
  active, draining, completed, expired, interrupted, Job, DesktopQueue, DesktopError, empty,
  is_queued, is_live, overdue, save,
}
use machine_fabric.Desktop.Gate.{Snapshot, Receipt, availability, user_authorization}

-- What one call of `promote` reads: the files of the provider and of the user, the clock each time,
-- and whether each write of the queue succeeds.
pub record Readings : Type 0 where
  pub provider_file : Bool
  pub policy_saved : Bool
  pub now : ℕ
  pub expiry_saved : Bool
  pub snapshot : Option Snapshot
  pub snapshot_now : ℕ
  pub receipt : Job → Option Receipt
  pub receipt_now : Job → ℕ
  pub granted_at : ℕ
  pub grant_saved : Bool

abbrev pub Answer : Type 0 → Type 0
Answer A = Result DesktopError A × DesktopQueue

-- `save()?`.
abbrev pub saving : Bool → DesktopQueue → Answer (Unit {0})
saving saved queue = (save saved, queue)

unfoldable pub refresh_availability_policy : Bool → Bool → DesktopQueue → Answer (Unit {0})
refresh_availability_policy provider_file saved queue =
    if not queue.availability_required && provider_file
    then saving saved (record queue { availability_required = true })
    else (ok tt, queue)

abbrev pub expires_now : ℕ → Job → Bool
expires_now now job = is_queued job && overdue job.deadline_at now

abbrev pub expire : ℕ → Job → Job
expire now job = if expires_now now job then record job { state = expired } else job

unfoldable pub expire_all : ℕ → Bool → DesktopQueue → Answer (Unit {0})
expire_all now saved queue =
    let queue' = record queue { jobs = map (expire now) queue.jobs } in
    if any (expires_now now) queue.jobs then saving saved queue' else (ok tt, queue')

abbrev pub gated : DesktopQueue → Job → Bool
gated queue job = job.requires_availability || queue.availability_required

abbrev pub authorized : Readings → DesktopQueue → Job → Bool
authorized r queue job = user_authorization queue.boot_id job (r.receipt job) (r.receipt_now job)

-- The head of the queue, where it may use the desktop.
abbrev pub open_head : DesktopQueue → Bool → Option ℕ → Option Job → Option ℕ
open_head queue available (some i) (some job) =
    if not (gated queue job) || available then some i else none
open_head queue available (some i) none = none
open_head queue available none head = none

abbrev pub elem_at : Option ℕ → List Job → Option Job
elem_at none jobs = none
elem_at (some i) jobs = get_elem? jobs i

abbrev pub or_else : Option ℕ → Option ℕ → Option ℕ
or_else none j = j
or_else (some i) j = some i

unfoldable pub candidate : Readings → DesktopQueue → Option ℕ
candidate r queue =
    or_else
      (open_head queue (availability r.snapshot r.snapshot_now) (position is_queued queue.jobs)
        (elem_at (position is_queued queue.jobs) queue.jobs))
      (position (λ job. is_queued job && authorized r queue job) queue.jobs)

-- Nothing bars a grant but the choice of the job.
unfoldable pub is_free : DesktopQueue → Bool
is_free queue =
    not (is_some queue.maintenance_owner)
    && not queue.blocked
    && not queue.in_flight
    && not (any is_live queue.jobs)

abbrev pub activate : ℕ → ℕ → Job → Job
activate epoch now job = record job {
  epoch = epoch;
  state = active;
  expires_at = saturating_add now job.ttl_ms;
}

-- The grant is taken back in memory when it could not be written.
unfoldable pub grant_saving : Bool → ℕ → Job → DesktopQueue → Answer (Unit {0})
grant_saving true old_epoch old queue = (ok tt, queue)
grant_saving false old_epoch old queue = (
  err DesktopError.state_failed,
  record queue {
    epoch = old_epoch;
    jobs = update_first (λ job. job.id == old.id) (λ _. old) queue.jobs;
  },
)

unfoldable pub grant_at : Readings → DesktopQueue → Option ℕ → Option Job → Answer (Unit {0})
unfolding grant_saving
grant_at r queue (some i) (some job) =
    let epoch = (queue.epoch + 1) % 2 ^ 64 in
    grant_saving r.grant_saved ((epoch + (2 ^ 64 - 1)) % 2 ^ 64) job
      (record queue { epoch = epoch; jobs = update_at i (activate epoch r.granted_at) queue.jobs })
grant_at r queue (some i) none = (ok tt, queue)
grant_at r queue none job = (ok tt, queue)

-- The choice of the next job, and its grant.
unfoldable pub grant_next : Readings → DesktopQueue → Answer (Unit {0})
unfolding candidate is_free grant_at
grant_next r queue =
    if is_free queue
    then grant_at r queue (candidate r queue) (elem_at (candidate r queue) queue.jobs)
    else (ok tt, queue)

unfoldable pub promote : Readings → DesktopQueue → Answer (Unit {0})
unfolding refresh_availability_policy expire_all grant_next
promote r queue =
    if queue.recovery_inspection_active
    then (ok tt, queue)
    else after (refresh_availability_policy r.provider_file r.policy_saved queue)
        λ _ queue'. after (expire_all r.now r.expiry_saved queue') λ _ queue''. grant_next r queue''

abbrev pub drain_if_over : ℕ → ℕ → Job → Job
drain_if_over now later job =
    if leb job.expires_at now || overdue job.deadline_at later
    then record job { state = draining }
    else job

abbrev pub is_draining : Option Job → Bool
is_draining none = false
is_draining (some job) = elim job.state [ draining ↦ true | _ ↦ false ]

unfoldable pub needs_cleanup : DesktopQueue → ℕ → ℕ → Bool × DesktopQueue
needs_cleanup queue now later =
    let queue' = record queue {
      jobs = update_first is_live (drain_if_over now later) queue.jobs;
    } in
    if queue.in_flight then (false, queue) else (is_draining (find is_live queue'.jobs), queue')

abbrev pub cleaned : Bool → ℕ → Job → Job
cleaned blocked now job = record job {
  state = if blocked then interrupted else if leb job.expires_at now then expired else completed;
}

unfoldable pub cleanup_done : DesktopQueue → Bool → ℕ → Bool → Readings → Answer (Unit {0})
unfolding promote
cleanup_done queue success now saved r =
    let queue' =
      if success
      then record queue { jobs = update_first is_live (cleaned queue.blocked now) queue.jobs }
      else record queue { blocked = true } in
    after (saving saved queue') λ _ queue''. promote r queue''

unfoldable pub worker_reconcile : DesktopQueue → Bool → Readings → Answer (Unit {0})
unfolding promote
worker_reconcile queue notification r = promote r (
    if notification
    then record queue { notification_wakes = saturating_add queue.notification_wakes 1 }
    else record queue { polling_wakes = saturating_add queue.polling_wakes 1 })

abbrev pub retire : Job → Job
retire job = if is_live job then record job { state = interrupted } else job

-- Both boots are known and differ.
abbrev pub restarted : Option String → Option String → Bool
restarted (some old) (some current) = not (old == current)
restarted (some old) none = false
restarted none current = false

-- The changes of `open_with_boot_id` to the queue that was read.
unfoldable pub reopened : DesktopQueue → Option String → ℕ → DesktopQueue
reopened queue boot_id now =
    let cut = queue.in_flight || any is_live queue.jobs in
    let queue' =
      if restarted queue.boot_id boot_id
      then record queue {
        jobs = map retire queue.jobs;
        last_recovery =
            if queue.blocked || cut
            then some (record {
              observed_at = now;
              interrupted_sessions = length (keep is_live queue.jobs);
            })
            else queue.last_recovery;
        blocked = false;
        in_flight = false;
      }
      else if cut
      then record queue { blocked = true; in_flight = false }
      else queue in
    if is_some boot_id then record queue' { boot_id = boot_id } else queue'

-- A queue as it is read back from the file: what is not stored has its default.
abbrev pub loaded : DesktopQueue → String → DesktopQueue
loaded stored path = record stored {
  path = some path;
  recovery_inspection_active = false;
  notification_wakes = 0;
  polling_wakes = 0;
}

-- The file, where it is there, is read and parsed with an error or as a queue.
unfoldable pub open_with_boot_id :
    Result DesktopError (Option DesktopQueue)
    → String
    → Option String
    → ℕ
    → Bool
    → Result DesktopError DesktopQueue
unfolding reopened
open_with_boot_id (err e) path boot_id now saved = err e
open_with_boot_id (ok none) path boot_id now saved =
    if saved then ok (reopened (loaded empty path) boot_id now) else err DesktopError.state_failed
open_with_boot_id (ok (some stored)) path boot_id now saved =
    if saved then ok (reopened (loaded stored path) boot_id now) else err DesktopError.state_failed
