-- ===== src/Tasks/Cases.antt =====
-- crates/machine-fabric-core/src/task.rs: one rule for each method, with a premise for each branch.
use machine_fabric.Base.{
  ℕ, String, ◌≡◌, Bool, true, false, not, inl, inr, Option, none, some, arith, eq_refl, ◌||◌,
  nat_eq, is_some, Bool-cases, Option-cases, Result, ok, err,
}
use machine_fabric.BTreeMap.{get, insert, get-insert}
use machine_fabric.Schema.{Task, TaskState, queued, TaskError as TaskFailure, TaskPayloadRef}
use machine_fabric.Tasks.Table.{
  TaskError, not_found, invalid_transition, TaskTable, key_of, push_event, get_task, put_task,
  allowed, retryable, scoped_idempotency_key,
}
use machine_fabric.Tasks.Lifecycle.{
  new_task, reuse, submit_traced, move_to, transition, requeue, retry, retry_with_input,
  after_retry,
}
use machine_fabric.Tasks.Upkeep.{replace_input_ref_if_unchanged, replace_output_ref_if_unchanged}

module _ {ℓ} {Value : Type 0} (null : Value) where
  pub transition_cases :
      (P : Result TaskError (Task Value) × TaskTable Value → Type ℓ) (table : TaskTable Value)
      (id : String) (state : TaskState) (output : Option Value) (error : Option (TaskFailure Value))
      (now event_now : ℕ)
      → (get_task table id ≡ none → P (err not_found, table))
      → ((task : Task Value)
          → get_task table id ≡ some task
          → allowed task.state state ≡ false
          → P (err (invalid_transition task.state state), table))
      → ((task : Task Value)
          → get_task table id ≡ some task
          → allowed task.state state ≡ true
          → let task' = move_to null task state output error now event_now in
            P (ok task', put_task table id task'))
      → P (transition null table id state output error now event_now)
  unfolding transition
  transition_cases P table id state output error now event_now missing refused moved =
      elim (Option-cases (get_task table id)) [
        | inl e ↦ rw (e, transition) (missing e)
        | inr (task, e) ↦ elim (Bool-cases (allowed task.state state)) [
          | inl a ↦ rw (e, transition, a) (moved task e a)
          | inr a ↦ rw (e, transition, a) (refused task e a)
        ]
      ]

  pub retry_cases :
      (P : Result TaskError (Task Value) × TaskTable Value → Type ℓ) (table : TaskTable Value)
      (id : String) (now event_now : ℕ)
      → (get_task table id ≡ none → P (err not_found, table))
      → ((task : Task Value)
          → get_task table id ≡ some task
          → retryable task.state ≡ false
          → P (err (invalid_transition task.state queued), table))
      → ((task : Task Value)
          → get_task table id ≡ some task
          → retryable task.state ≡ true
          → let task' = requeue null task now event_now in P (ok task', put_task table id task'))
      → P (retry null table id now event_now)
  unfolding retry
  retry_cases P table id now event_now missing refused requeued =
      elim (Option-cases (get_task table id)) [
        | inl e ↦ rw (e, retry) (missing e)
        | inr (task, e) ↦ elim (Bool-cases (retryable task.state)) [
          | inl a ↦ rw (e, retry, a) (requeued task e a)
          | inr a ↦ rw (e, retry, a) (refused task e a)
        ]
      ]

  pub retry_with_input_cases :
      (P : Result TaskError (Task Value) × TaskTable Value → Type ℓ) (table : TaskTable Value)
      (id : String) (input : Value) (now event_now : ℕ)
      → (get_task table id ≡ none → P (err not_found, table))
      → ((task : Task Value)
          → get_task table id ≡ some task
          → retryable task.state ≡ false
          → P (err (invalid_transition task.state queued), table))
      → ((task : Task Value)
          → get_task table id ≡ some task
          → retryable task.state ≡ true
          → let task' = requeue null task now event_now in
            let task'' = record task' { input = input; input_ref = none } in
            P (ok task'', put_task (put_task table id task') id task''))
      → P (retry_with_input null table id input now event_now)
  unfolding retry_with_input requeue push_event
  retry_with_input_cases P table id input now event_now missing refused requeued =
      retry_cases (λ r. P (after_retry null id input r)) table id now event_now missing refused
        λ task e a.
          rw (get-insert id id (requeue null task now event_now) table.tasks, eq_refl id)
            (requeued task e a)

  pub submit_cases :
      (P : Option ((Task Value × Bool) × TaskTable Value) → Type ℓ) (table : TaskTable Value)
      (session executor capability : String) (input : Value) (key : String)
      (correlation_id request_id : Option String) (now event_now : ℕ) (uuid : String)
      → ((id : String)
          → get (scoped_idempotency_key session executor capability key) table.idempotency ≡ some id
          → P (reuse table (get_task table id)))
      → (let task =
            new_task null session executor capability input key correlation_id request_id now
              event_now uuid in
          get (scoped_idempotency_key session executor capability key) table.idempotency ≡ none
          → P (
              some (
                (task, false),
                record {
                  tasks = insert task.id task table.tasks;
                  idempotency = insert (key_of task) task.id table.idempotency;
                },
              )))
      → P (
          submit_traced null table session executor capability input key correlation_id request_id
            now event_now uuid)
  unfolding submit_traced
  submit_cases P table session executor capability input key correlation_id request_id now event_now
        uuid reused fresh =
      elim (Option-cases
        (get (scoped_idempotency_key session executor capability key) table.idempotency)) [
          | inl e ↦ rw (e, submit_traced) (fresh e)
          | inr (id, e) ↦ rw (e, submit_traced) (reused id e)
        ]

module _ {ℓ} {Value : Type 0} where
  pub replace_input_ref_cases :
      (P : Bool × TaskTable Value → Type ℓ) (table : TaskTable Value) (id : String) (revision : ℕ)
      (marker : Value) (reference : TaskPayloadRef)
      → P (false, table)
      → ((task : Task Value)
          → get_task table id ≡ some task
          → task.revision ≡ revision
          → task.input_ref ≡ none
          → P (
            true,
            put_task table id (record task { input = marker; input_ref = some reference }),
          ))
      → P (replace_input_ref_if_unchanged table id revision marker reference)
  unfolding replace_input_ref_if_unchanged
  replace_input_ref_cases P table id revision marker reference refused replaced =
      elim (Option-cases (get_task table id)) [
        | inl e ↦ rw (e, replace_input_ref_if_unchanged) refused
        | inr (task, e) ↦
            elim (Bool-cases (not (nat_eq task.revision revision) || is_some task.input_ref)) [
              | inl a ↦ rw (e, replace_input_ref_if_unchanged, a) refused
              | inr a ↦
                  rw (e, replace_input_ref_if_unchanged, a)
                    (replaced task e (ground arith) (ground arith))
            ]
      ]

  pub replace_output_ref_cases :
      (P : Bool × TaskTable Value → Type ℓ) (table : TaskTable Value) (id : String) (revision : ℕ)
      (marker : Value) (reference : TaskPayloadRef)
      → P (false, table)
      → ((task : Task Value)
          → get_task table id ≡ some task
          → task.revision ≡ revision
          → task.output_ref ≡ none
          → P (
            true,
            put_task table id (record task { output = some marker; output_ref = some reference }),
          ))
      → P (replace_output_ref_if_unchanged table id revision marker reference)
  unfolding replace_output_ref_if_unchanged
  replace_output_ref_cases P table id revision marker reference refused replaced =
      elim (Option-cases (get_task table id)) [
        | inl e ↦ rw (e, replace_output_ref_if_unchanged) refused
        | inr (task, e) ↦
            elim (Bool-cases (not (nat_eq task.revision revision) || is_some task.output_ref)) [
              | inl a ↦ rw (e, replace_output_ref_if_unchanged, a) refused
              | inr a ↦
                  rw (e, replace_output_ref_if_unchanged, a)
                    (replaced task e (ground arith) (ground arith))
            ]
      ]
