-- ===== src/Tasks/Steps.antt =====
-- crates/machine-fabric-core/src/task.rs: the histories of a task table, under any clock and any
-- sequence of calls.
use machine_fabric.Base.{ℕ, String, ◌≡◌, Bool, Option, none, some}
use machine_fabric.BTreeMap.{get}
use machine_fabric.Schema.{Task, TaskState, TaskPayloadRef, TaskError as TaskFailure}
use machine_fabric.Tasks.Table.{TaskTable, ◌⊕◌, empty, get_task}
use machine_fabric.Tasks.Lifecycle.{
  submit_traced, transition, retry, retry_with_input, recover_orphans,
}
use machine_fabric.Tasks.Upkeep.{
  replace_input_ref_if_unchanged, replace_output_ref_if_unchanged, prune_terminal_before,
}
use machine_fabric.Tasks.Consistent.{IsConsistent}
use machine_fabric.Tasks.Methods.{
  transition-IsConsistent, retry-IsConsistent, retry_with_input-IsConsistent, submit-IsConsistent,
  recover_orphans-IsConsistent, replace_input_ref-IsConsistent, replace_output_ref-IsConsistent,
  prune-IsConsistent,
}

-- One call of a method that may change the table. The id of a new task is not in use: it is made
-- from a fresh random UUID.
pub data Step {Value : Type 0} (null : Value) (table : TaskTable Value)
    : TaskTable Value → Type 0 where
  submits :
      {table' : TaskTable Value} (session executor capability : String) (input : Value)
      (key : String) (correlation_id request_id : Option String) (now event_now : ℕ) (uuid : String)
      (answer : Task Value × Bool)
      → get_task table ("task_" ⊕ uuid) ≡ none
      → submit_traced null table session executor capability input key correlation_id request_id now
          event_now uuid
        ≡ some (answer, table')
      → Step null table table'
  transitions :
      {table' : TaskTable Value} (id : String) (state : TaskState) (output : Option Value)
      (error : Option (TaskFailure Value)) (now event_now : ℕ)
      → table' ≡ (transition null table id state output error now event_now).1
      → Step null table table'
  retries :
      {table' : TaskTable Value} (id : String) (now event_now : ℕ)
      → table' ≡ (retry null table id now event_now).1
      → Step null table table'
  retries_with_input :
      {table' : TaskTable Value} (id : String) (input : Value) (now event_now : ℕ)
      → table' ≡ (retry_with_input null table id input now event_now).1
      → Step null table table'
  replaces_input :
      {table' : TaskTable Value} (id : String) (revision : ℕ) (marker : Value)
      (reference : TaskPayloadRef)
      → table' ≡ (replace_input_ref_if_unchanged table id revision marker reference).1
      → Step null table table'
  replaces_output :
      {table' : TaskTable Value} (id : String) (revision : ℕ) (marker : Value)
      (reference : TaskPayloadRef)
      → table' ≡ (replace_output_ref_if_unchanged table id revision marker reference).1
      → Step null table table'
  prunes :
      {table' : TaskTable Value} (cutoff : ℕ)
      → table' ≡ (prune_terminal_before table cutoff).1
      → Step null table table'
  recovers :
      {table' : TaskTable Value} (clock : ℕ → ℕ)
      → table' ≡ (recover_orphans null table clock).1
      → Step null table table'

pub data Reach {Value : Type 0} (null : Value) (table : TaskTable Value)
    : TaskTable Value → Type 0 where
  here : Reach null table table
  next :
      {table' table'' : TaskTable Value}
      → Reach null table table'
      → Step null table' table''
      → Reach null table table''

module _ {Value : Type 0} (null : Value) where
  Step-IsConsistent :
      {table table' : TaskTable Value}
      → Step null table table'
      → IsConsistent table
      → IsConsistent table'
  Step-IsConsistent {table} (submits {table'} a b c d e f g h i j k l m) w =
      submit-IsConsistent null table table' a b c d e f g h i j k l m w
  Step-IsConsistent {table} (transitions a b c d e f q) w =
      rw q (transition-IsConsistent null table a b c d e f w)
  Step-IsConsistent {table} (retries a b c q) w = rw q (retry-IsConsistent null table a b c w)
  Step-IsConsistent {table} (retries_with_input a b c d q) w =
      rw q (retry_with_input-IsConsistent null table a b c d w)
  Step-IsConsistent {table} (replaces_input a b c d q) w =
      rw q (replace_input_ref-IsConsistent table a b c d w)
  Step-IsConsistent {table} (replaces_output a b c d q) w =
      rw q (replace_output_ref-IsConsistent table a b c d w)
  Step-IsConsistent {table} (prunes a q) w = rw q (prune-IsConsistent table a w)
  Step-IsConsistent {table} (recovers a q) w = rw q (recover_orphans-IsConsistent null table a w)

  -- Every table that calls of the methods make of a consistent table is consistent: both maps are
  -- sorted, each task is found under its own id, and the scoped keys and the tasks' ids correspond.
  pub Reach-IsConsistent :
      {table table' : TaskTable Value}
      → IsConsistent table
      → Reach null table table'
      → IsConsistent table'
  Reach-IsConsistent c here = c
  Reach-IsConsistent c (next r s) = Step-IsConsistent s (Reach-IsConsistent c r)

  pub empty-IsConsistent : IsConsistent {Value = Value} empty
  unfolding get
  empty-IsConsistent = record {
    tasks_sorted = tt;
    keys_sorted = tt;
    keyed = λ id task p. cc;
    indexed = λ id task p. cc;
    covered = λ key id p. cc;
  }
