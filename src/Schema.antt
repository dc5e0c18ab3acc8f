-- ===== src/Schema.antt =====
-- crates/machine-fabric-schema/src/lib.rs: the records of tasks and of leases. `serde_json::Value`
-- is code of another crate, and stands as the parameter `Value`.
use machine_fabric.Base.{ℕ, String, Bool, true, false, Option, List}

pub data TaskState : Type 0 where
  queued running succeeded failed cancelled timed_out outcome_unknown : TaskState

pub TaskState-discrete : Discrete TaskState
TaskState-discrete = hlevel

unfoldable pub terminal : TaskState → Bool
terminal succeeded = true
terminal failed = true
terminal cancelled = true
terminal timed_out = true
terminal outcome_unknown = true
terminal queued = false
terminal running = false

-- The kebab-case names of the serialised states.
unfoldable pub state_name : TaskState → String
state_name queued = "queued"
state_name running = "running"
state_name succeeded = "succeeded"
state_name failed = "failed"
state_name cancelled = "cancelled"
state_name timed_out = "timed-out"
state_name outcome_unknown = "outcome-unknown"

pub record TaskPayloadRef : Type 0 where
  pub digest : String
  pub bytes : ℕ
  pub locator : String
  pub chunk : Option String

pub record TaskEvent (Value : Type 0) : Type 0 where
  pub sequence : ℕ
  pub timestamp : ℕ
  pub event_type : String
  pub details : Value

pub record TaskError (Value : Type 0) : Type 0 where
  pub code : String
  pub message : String
  pub retryable : Bool
  pub details : Value

pub record Task (Value : Type 0) : Type 0 where
  pub id : String
  pub correlation_id : Option String
  pub request_id : Option String
  pub workspace_session_id : String
  pub executor_id : String
  pub capability : String
  pub input : Value
  pub input_ref : Option TaskPayloadRef
  pub output : Option Value
  pub output_ref : Option TaskPayloadRef
  pub error : Option (TaskError Value)
  pub idempotency_key : String
  pub state : TaskState
  pub attempt : ℕ
  pub revision : ℕ
  pub created_at : ℕ
  pub updated_at : ℕ
  pub events : List (TaskEvent Value)

pub data LeaseKind : Type 0 where
  driver resource : LeaseKind

pub record Lease : Type 0 where
  pub id : String
  pub kind : LeaseKind
  pub resource : String
  pub owner : String
  pub token : String
  pub fence : ℕ
  pub acquired_at : ℕ
  pub updated_at : ℕ
  pub expires_at : ℕ
  pub handoff_to : Option String
