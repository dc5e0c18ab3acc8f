-- ===== src/Desktop/Queue.antt =====
-- crates/machine-fabric-runtime/src/desktop.rs: the data of the queue. The state of a job is a text
-- in the code; here each text that the code knows has a constructor, and `other` is any other text.
use machine_fabric.Base.{
  ℕ, String, Bool, true, false, Option, none, some, List, [], position, leb, if◌then◌else◌, Result,
  ok, err, ◌==◌, not, ◌&&◌,
}
use machine_fabric.Peer.Grant.{byte_len}

pub data JobState : Type 0 where
  queued active draining completed cancelled expired interrupted : JobState
  other : String → JobState

pub record Job : Type 0 where
  pub id : String
  pub owner : String
  pub request_key : String
  pub token : String
  pub state : JobState
  pub epoch : ℕ
  pub ttl_ms : ℕ
  pub submitted_at : ℕ
  pub expires_at : ℕ
  pub requires_availability : Bool
  pub deadline_at : Option ℕ
  pub claimed_by : Option String

-- The receipt of a recovery by a restart of the system.
pub record Recovery : Type 0 where
  pub observed_at : ℕ
  pub interrupted_sessions : ℕ

pub record DesktopQueue : Type 0 where
  pub path : Option String
  pub epoch : ℕ
  pub jobs : List Job
  pub in_flight : Bool
  pub blocked : Bool
  pub boot_id : Option String
  pub last_recovery : Option Recovery
  pub maintenance_owner : Option String
  pub availability_required : Bool
  pub recovery_inspection_active : Bool
  pub notification_wakes : ℕ
  pub polling_wakes : ℕ

-- The codes of the errors.
pub data DesktopError : Type 0 where
  invalid_params state_failed recovery_required busy draining_session unavailable : DesktopError
  maintenance maintenance_owned session_required session_invalid session_inactive : DesktopError
  already_claimed queue_full inspect_busy inspect_action_invalid : DesktopError
  inspect_params_invalid unknown_action : DesktopError

-- `DesktopQueue::default`.
abbrev pub empty : DesktopQueue
empty = record {
  path = none;
  epoch = 0;
  jobs = [];
  in_flight = false;
  blocked = false;
  boot_id = none;
  last_recovery = none;
  maintenance_owner = none;
  availability_required = false;
  recovery_inspection_active = false;
  notification_wakes = 0;
  polling_wakes = 0;
}

-- `field`, from what `as_str` gives for the parameter.
unfoldable pub field : Option String → Result DesktopError String
field none = err invalid_params
field (some s) = if not (s == "") && leb (byte_len s) 256 then ok s else err invalid_params

abbrev pub is_queued : Job → Bool
is_queued job = elim job.state [ queued ↦ true | _ ↦ false ]

abbrev pub is_active : Job → Bool
is_active job = elim job.state [ active ↦ true | _ ↦ false ]

-- A job that owns the desktop: active or draining.
abbrev pub owns_desktop : JobState → Bool
owns_desktop active = true
owns_desktop draining = true
owns_desktop _ = false

abbrev pub is_live : Job → Bool
is_live job = owns_desktop job.state

abbrev pub is_terminal : Job → Bool
is_terminal job = elim job.state [
  | completed ↦ true
  | cancelled ↦ true
  | expired ↦ true
  | interrupted ↦ true
  | _ ↦ false
]

-- `deadline_at.is_some_and(|at| at <= now)`.
abbrev pub overdue : Option ℕ → ℕ → Bool
overdue none now = false
overdue (some at) now = leb at now

-- `self.active()`.
unfoldable pub live_index : DesktopQueue → Option ℕ
live_index queue = position is_live queue.jobs

-- `self.save()`, which changes nothing in memory; `saved` is whether the file was written.
abbrev pub save : Bool → Result DesktopError (Unit {0})
save true = ok tt
save false = err state_failed
