-- ===== src/Tasks/Lifecycle.antt =====
-- crates/machine-fabric-core/src/task.rs: submission, transitions, retries and the recovery after a
-- restart.
use machine_fabric.Base.{
  ℕ, ◌+◌, ◌%◌, ◌^◌, String, Bool, true, false, not, Option, none, some, List, [], ◌∷◌,
  saturating_add, if◌then◌else◌, Result, ok, err,
}
use machine_fabric.BTreeMap.{BTreeMap, get, insert}
use machine_fabric.Schema.{
  Task, TaskState, queued, running, outcome_unknown, TaskError as TaskFailure, state_name,
}
use machine_fabric.Tasks.Table.{
  TaskError, not_found, invalid_transition, TaskTable, ◌⊕◌, scoped_idempotency_key, allowed,
  retryable, in_flight, push_event, get_task, put_task,
}

-- `self.tasks[id]` panics on a missing key.
abbrev pub reuse :
    {Value : Type 0}
    → TaskTable Value
    → Option (Task Value)
    → Option ((Task Value × Bool) × TaskTable Value)
reuse table none = none
reuse table (some task) = some ((task, true), table)

module _ {Value : Type 0} (null : Value) where
  unfoldable pub new_task :
      String
      → String
      → String
      → Value
      → String
      → Option String
      → Option String
      → ℕ
      → ℕ
      → String
      → Task Value
  unfolding push_event
  new_task session executor capability input key correlation_id request_id now event_now uuid =
      push_event
        (record {
          id = "task_" ⊕ uuid;
          correlation_id = correlation_id;
          request_id = request_id;
          workspace_session_id = session;
          executor_id = executor;
          capability = capability;
          input = input;
          input_ref = none;
          output = none;
          output_ref = none;
          error = none;
          idempotency_key = key;
          state = queued;
          attempt = 0;
          revision = 1;
          created_at = now;
          updated_at = now;
          events = [];
        })
        "task.queued" null event_now

  unfoldable pub submit_traced :
      TaskTable Value
      → String
      → String
      → String
      → Value
      → String
      → Option String
      → Option String
      → ℕ
      → ℕ
      → String
      → Option ((Task Value × Bool) × TaskTable Value)
  unfolding new_task
  submit_traced table session executor capability input key correlation_id request_id now event_now
        uuid =
      let scoped_key = scoped_idempotency_key session executor capability key in
      let task =
        new_task session executor capability input key correlation_id request_id now event_now
          uuid in
      elim (get scoped_key table.idempotency) [
        | some id ↦ reuse table (get_task table id)
        | none ↦ some (
          (task, false),
          record {
            tasks = insert task.id task table.tasks;
            idempotency = insert scoped_key task.id table.idempotency;
          },
        )
      ]

  unfoldable pub submit :
      TaskTable Value
      → String
      → String
      → String
      → Value
      → String
      → ℕ
      → ℕ
      → String
      → Option ((Task Value × Bool) × TaskTable Value)
  unfolding submit_traced
  submit table session executor capability input key now event_now uuid =
      submit_traced table session executor capability input key none none now event_now uuid

  -- The changes that a permitted `transition` makes to its task; `attempt` is a `u32`.
  unfoldable pub move_to :
      Task Value → TaskState → Option Value → Option (TaskFailure Value) → ℕ → ℕ → Task Value
  unfolding push_event state_name
  move_to task state output error now event_now =
      push_event
        (record task {
          attempt = elim state [ running ↦ (task.attempt + 1) % 2 ^ 32 | _ ↦ task.attempt ];
          revision = saturating_add task.revision 1;
          state = state;
          output = output;
          output_ref = none;
          error = error;
          updated_at = now;
        })
        ("task." ⊕ state_name state) null event_now

  unfoldable pub transition :
      TaskTable Value
      → String
      → TaskState
      → Option Value
      → Option (TaskFailure Value)
      → ℕ
      → ℕ
      → Result TaskError (Task Value) × TaskTable Value
  unfolding allowed move_to
  transition table id state output error now event_now = elim (get_task table id) [
    | none ↦ (err not_found, table)
    | some task ↦
        let task' = move_to task state output error now event_now in
        if not (allowed task.state state)
        then (err (invalid_transition task.state state), table)
        else (ok task', put_task table id task')
  ]

  unfoldable pub requeue : Task Value → ℕ → ℕ → Task Value
  unfolding push_event
  requeue task now event_now =
      push_event
        (record task {
          state = queued;
          revision = saturating_add task.revision 1;
          output = none;
          output_ref = none;
          error = none;
          updated_at = now;
        })
        "task.retried" null event_now

  unfoldable pub retry :
      TaskTable Value → String → ℕ → ℕ → Result TaskError (Task Value) × TaskTable Value
  unfolding retryable requeue
  retry table id now event_now = elim (get_task table id) [
    | none ↦ (err not_found, table)
    | some task ↦
        let task' = requeue task now event_now in
        if not (retryable task.state)
        then (err (invalid_transition task.state queued), table)
        else (ok task', put_task table id task')
  ]

  abbrev set_input :
      TaskTable Value
      → String
      → Value
      → Option (Task Value)
      → Result TaskError (Task Value) × TaskTable Value
  set_input table id input none = (err not_found, table)
  set_input table id input (some task) =
      let task' = record task { input = input; input_ref = none } in
      (ok task', put_task table id task')

  -- What follows `self.retry(id)?`.
  abbrev pub after_retry :
      String
      → Value
      → Result TaskError (Task Value) × TaskTable Value
      → Result TaskError (Task Value) × TaskTable Value
  after_retry id input (err e, table) = (err e, table)
  after_retry id input (ok _, table) = set_input table id input (get_task table id)

  unfoldable pub retry_with_input :
      TaskTable Value → String → Value → ℕ → ℕ → Result TaskError (Task Value) × TaskTable Value
  retry_with_input table id input now event_now =
      after_retry id input (retry table id now event_now)

  -- `recover_orphans` stamps the task with one reading of the clock and its event with the next.
  unfoldable pub orphan : Task Value → ℕ → ℕ → Task Value
  unfolding push_event
  orphan task now event_now =
      push_event
        (record task {
          state = outcome_unknown;
          revision = saturating_add task.revision 1;
          error = some (record {
            code = "CONTROLLER_RESTARTED";
            message = "controller restarted before the task outcome was recorded";
            retryable = true;
            details = null;
          });
          updated_at = now;
        })
        "task.outcome-unknown" null event_now

  unfoldable pub recover_entries :
      (ℕ → ℕ) → ℕ → BTreeMap (Task Value) → List (Task Value) × BTreeMap (Task Value)
  unfolding in_flight orphan
  recover_entries clock n [] = ([], [])
  recover_entries clock n ((id, task) ∷ entries) =
      let task' = orphan task (clock n) (clock (n + 1)) in
      let (recovered, entries') =
        recover_entries clock (if in_flight task.state then n + 2 else n) entries in
      if in_flight task.state
      then (task' ∷ recovered, (id, task') ∷ entries')
      else (recovered, (id, task) ∷ entries')

  unfoldable pub recover_orphans : TaskTable Value → (ℕ → ℕ) → List (Task Value) × TaskTable Value
  unfolding recover_entries
  recover_orphans table clock =
      let (recovered, entries) = recover_entries clock 0 table.tasks in
      (recovered, record table { tasks = entries })
