-- ===== src/Tasks/Table.antt =====
-- crates/machine-fabric-core/src/task.rs: the task table, its keys and
-- the parts that the methods share. The readings of the clock (`now`, and
-- `event_now` for the later one that an event is stamped with) and the text of a new UUID are
-- arguments. A table is the state of both maps; a method that fails or returns early gives it back
-- as it left it. A panic is `none`.
use Prim.Native.Char.{nul}
use Prim.Native.String
use machine_fabric.Base.{ℕ, ◌+◌, String, Bool, true, false, Option, List, [], ◌∷◌, ◌++◌, length}
use machine_fabric.BTreeMap.{BTreeMap, get, insert, values}
use machine_fabric.Schema.{
  Task, TaskState, queued, running, succeeded, failed, cancelled, timed_out, outcome_unknown,
}

pub data TaskError : Type 0 where
  not_found : TaskError
  invalid_transition : TaskState → TaskState → TaskError

pub record TaskTable (Value : Type 0) : Type 0 where
  pub tasks : BTreeMap (Task Value)
  pub idempotency : BTreeMap String

abbrev pub empty : {Value : Type 0} → TaskTable Value
empty = record { tasks = []; idempotency = [] }

abbrev pub nul_text : String
nul_text = String.◌∷◌ nul String.[]

infixr 66 ◌⊕◌
abbrev pub ◌⊕◌ : String → String → String
s ⊕ t = String.◌++◌ s t

unfoldable pub scoped_idempotency_key : String → String → String → String → String
scoped_idempotency_key workspace_session_id executor_id capability key =
    workspace_session_id ⊕ nul_text ⊕ executor_id ⊕ nul_text ⊕ capability ⊕ nul_text ⊕ key

-- The scoped key of a task's own fields.
abbrev pub key_of : {Value : Type 0} → Task Value → String
key_of t =
    scoped_idempotency_key t.workspace_session_id t.executor_id t.capability t.idempotency_key

unfoldable pub allowed : TaskState → TaskState → Bool
allowed queued running = true
allowed queued cancelled = true
allowed running succeeded = true
allowed running failed = true
allowed running cancelled = true
allowed running timed_out = true
allowed running outcome_unknown = true
allowed _ _ = false

unfoldable pub retryable : TaskState → Bool
retryable failed = true
retryable timed_out = true
retryable outcome_unknown = true
retryable _ = false

-- The states that `recover_orphans` looks for.
unfoldable pub in_flight : TaskState → Bool
in_flight queued = true
in_flight running = true
in_flight _ = false

module _ {Value : Type 0} where
  unfoldable pub push_event : Task Value → String → Value → ℕ → Task Value
  push_event task event_type details now = record task {
    events =
        task.events
        ++ record {
          sequence = length task.events + 1;
          timestamp = now;
          event_type = event_type;
          details = details;
        }
          ∷ [];
  }

  unfoldable pub from_tasks_onto : TaskTable Value → List (Task Value) → TaskTable Value
  from_tasks_onto table [] = table
  from_tasks_onto table (task ∷ tasks) =
      from_tasks_onto
        (record {
          tasks = insert task.id task table.tasks;
          idempotency = insert (key_of task) task.id table.idempotency;
        })
        tasks

  unfoldable pub from_tasks : List (Task Value) → TaskTable Value
  unfolding from_tasks_onto
  from_tasks tasks = from_tasks_onto empty tasks

  unfoldable pub snapshot : TaskTable Value → List (Task Value)
  snapshot table = values table.tasks

  abbrev pub get_task : TaskTable Value → String → Option (Task Value)
  get_task table id = get id table.tasks

  abbrev pub put_task : TaskTable Value → String → Task Value → TaskTable Value
  put_task table id task = record table { tasks = insert id task table.tasks }
