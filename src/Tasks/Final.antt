-- ===== src/Tasks/Final.antt =====
-- crates/machine-fabric-core/src/task.rs: final states, stale payload references, the recovery after
-- a restart.
use machine_fabric.Base.{
  ℕ, ◌<◌, String, ◌≡◌, ◌≢◌, refl, ap, Bool, true, false, ◌⊎◌, inl, inr, Option, none, some, arith,
  eq_refl, Bool-cases, Option-cases, u64_max, nat_eq, ok,
}
use machine_fabric.BTreeMap.{get, get-insert}
use machine_fabric.BTreeMap.Updates.{Updates-get, Updates-get_back}
use machine_fabric.Schema.{
  Task, TaskState, queued, running, succeeded, failed, cancelled, timed_out, outcome_unknown,
  TaskPayloadRef, TaskError as TaskFailure,
}
use machine_fabric.Tasks.Table.{TaskTable, get_task, put_task, allowed, retryable, in_flight}
use machine_fabric.Tasks.Lifecycle.{
  move_to, transition, retry, requeue, recover_entries, recover_orphans,
}
use machine_fabric.Tasks.Upkeep.{replace_input_ref_if_unchanged, replace_output_ref_if_unchanged}
use machine_fabric.Tasks.Cases.{transition_cases, retry_cases}
use machine_fabric.Tasks.Methods.{recover_entries-Updates}
use machine_fabric.Tasks.Evolution.{Edge, stay, moves, retries as edge_retries, orphans, Recovers}
use machine_fabric.Tasks.History.{Prunes, Step-Stays}
use machine_fabric.Tasks.Steps.{Step}

-- The states that no method leaves.
unfoldable final : TaskState → Bool
final succeeded = true
final cancelled = true
final _ = false

Edge-final : {s t : TaskState} → final s ≡ true → Edge s t → t ≡ s
unfolding final allowed retryable in_flight
Edge-final f stay = refl
Edge-final {s} {t} f (moves h) = ground arith
Edge-final {s} {t} f (edge_retries h e) = ground arith
Edge-final {s} {t} f (orphans h e) = ground arith

module _ {Value : Type 0} (null : Value) where
  -- A task that has succeeded or was cancelled is there with that state after every method; only a
  -- pruning can take it away.
  pub final_stays :
      {table table' : TaskTable Value} (id : String) (task : Task Value)
      (step : Step null table table')
      → get_task table id ≡ some task
      → (task.state ≡ succeeded) ⊎ (task.state ≡ cancelled)
      → ((task' : Task Value) × (get_task table' id ≡ some task') × (task'.state ≡ task.state))
        ⊎ (Prunes null step × (get_task table' id ≡ none))
  unfolding final
  final_stays id task step held f = elim (Step-Stays null id task step held) [
    | inr e ↦ inr e
    | inl s ↦ inl (s.later, s.found, Edge-final (ground arith) s.evolves.edge)
  ]

module _ {Value : Type 0} where
  stale_input :
      (table : TaskTable Value) (id : String) (task : Task Value) (revision : ℕ) (marker : Value)
      (reference : TaskPayloadRef)
      → get_task table id ≡ some task
      → revision < task.revision
      → replace_input_ref_if_unchanged table id revision marker reference ≡ (false, table)
  unfolding replace_input_ref_if_unchanged
  stale_input table id task revision marker reference e h =
      let q : nat_eq task.revision revision ≡ false = ground arith in
      rw (e, replace_input_ref_if_unchanged, q)

  stale_output :
      (table : TaskTable Value) (id : String) (task : Task Value) (revision : ℕ) (marker : Value)
      (reference : TaskPayloadRef)
      → get_task table id ≡ some task
      → revision < task.revision
      → replace_output_ref_if_unchanged table id revision marker reference ≡ (false, table)
  unfolding replace_output_ref_if_unchanged
  stale_output table id task revision marker reference e h =
      let q : nat_eq task.revision revision ≡ false = ground arith in
      rw (e, replace_output_ref_if_unchanged, q)

  -- Neither reference of the task is replaced for that revision, and the table is left alone.
  abbrev pub Refuses : TaskTable Value → String → ℕ → Value → TaskPayloadRef → Type 0
  Refuses table id revision marker reference =
      (replace_input_ref_if_unchanged table id revision marker reference ≡ (false, table))
      × (replace_output_ref_if_unchanged table id revision marker reference ≡ (false, table))

  put_task-Refuses :
      (table : TaskTable Value) (id : String) (task' : Task Value) (revision : ℕ) (marker : Value)
      (reference : TaskPayloadRef)
      → revision < task'.revision
      → Refuses (put_task table id task') id revision marker reference
  put_task-Refuses table id task' revision marker reference h =
      let e : get_task (put_task table id task') id ≡ some task' =
        ground (arith, get-insert id id task' table.tasks, eq_refl id) in
      (
        stale_input (put_task table id task') id task' revision marker reference e h,
        stale_output (put_task table id task') id task' revision marker reference e h,
      )

module _ {Value : Type 0} (null : Value) where
  -- After a `retry` that returned a task, a payload reference made for the revision before it is
  -- refused and the table left alone, if that revision was below the largest `u64`.
  pub retry-Refuses :
      (table : TaskTable Value) (id : String) (task task' : Task Value) (now event_now : ℕ)
      (marker : Value) (reference : TaskPayloadRef)
      → get_task table id ≡ some task
      → task.revision < u64_max
      → (retry null table id now event_now).0 ≡ ok task'
      → Refuses (retry null table id now event_now).1 id task.revision marker reference
  unfolding requeue
  retry-Refuses table id task task' now event_now marker reference held small =
      retry_cases null (λ r. r.0 ≡ ok task' → Refuses r.1 id task.revision marker reference) table
        id now event_now (λ _ h. cc) (λ _ _ _ h. cc)
        λ found e _ _.
          let q : task ≡ found = cc in
          put_task-Refuses table id (requeue null found now event_now) task.revision marker
            reference (omega (arith, ap (λ (x : Task Value). x.revision) q))

  -- After a `transition` that returned a task, a payload reference made for the revision before it is
  -- refused and the table left alone, if that revision was below the largest `u64`.
  pub transition-Refuses :
      (table : TaskTable Value) (id : String) (task task' : Task Value) (state : TaskState)
      (output : Option Value) (error : Option (TaskFailure Value)) (now event_now : ℕ)
      (marker : Value) (reference : TaskPayloadRef)
      → get_task table id ≡ some task
      → task.revision < u64_max
      → (transition null table id state output error now event_now).0 ≡ ok task'
      → Refuses
          (transition null table id state output error now event_now).1
          id
          task.revision
          marker
          reference
  unfolding move_to
  transition-Refuses table id task task' state output error now event_now marker reference held
        small =
      transition_cases null (λ r. r.0 ≡ ok task' → Refuses r.1 id task.revision marker reference)
        table id state output error now event_now (λ _ h. cc) (λ _ _ _ h. cc)
        λ found e _ _.
          let q : task ≡ found = cc in
          put_task-Refuses table id (move_to null found state output error now event_now)
            task.revision marker reference (omega (arith, ap (λ (x : Task Value). x.revision) q))

  in_flight-queued : in_flight queued ≡ true
  unfolding in_flight
  in_flight-queued = refl

  in_flight-running : in_flight running ≡ true
  unfolding in_flight
  in_flight-running = refl

  settled-ne : (s t : TaskState) → in_flight s ≡ false → in_flight t ≡ true → s ≢ t
  settled-ne s t h k e = cc

  in_flight-true : (s : TaskState) → (s ≡ queued) ⊎ (s ≡ running) → in_flight s ≡ true
  in_flight-true s (inl e) = rw e in_flight-queued
  in_flight-true s (inr e) = rw e in_flight-running

  in_flight-false : (s : TaskState) → s ≢ queued → s ≢ running → in_flight s ≡ false
  unfolding in_flight
  in_flight-false queued h k = absurd (h refl)
  in_flight-false running h k = absurd (k refl)
  in_flight-false succeeded h k = refl
  in_flight-false failed h k = refl
  in_flight-false cancelled h k = refl
  in_flight-false timed_out h k = refl
  in_flight-false outcome_unknown h k = refl

  recovered_state : (a b : Task Value) → Recovers a b → in_flight b.state ≡ false
  unfolding in_flight
  recovered_state a b r = elim (Bool-cases (in_flight a.state)) [
    | inl e ↦ rw (r.unknown e, in_flight)
    | inr e ↦ rw (r.settled e) e
  ]

  -- After the recovery no task is queued or running: each task that was is `outcome-unknown`, and
  -- every other is as it was; and no task is lost or made.
  pub recover_exact :
      (table : TaskTable Value) (clock : ℕ → ℕ) (id : String)
      → let table' = (recover_orphans null table clock).1 in
        ((get_task table id ≡ none) × (get_task table' id ≡ none))
        ⊎ ((task : Task Value) × (task' : Task Value) × (get_task table id ≡ some task)
            × (get_task table' id ≡ some task')
            × (task'.state ≢ queued)
            × (task'.state ≢ running)
            × ((task.state ≡ queued) ⊎ (task.state ≡ running) → task'.state ≡ outcome_unknown)
            × (task.state ≢ queued → task.state ≢ running → task' ≡ task))
  unfolding recover_orphans in_flight
  recover_exact table clock id =
      let changes = recover_entries-Updates null clock 0 table.tasks in
      elim (Option-cases (get_task table id)) [
        | inr (task, e) ↦
            let (task', found, r) = Updates-get id task changes e in
            let q = recovered_state task task' r in
            inr (
              task,
              task',
              e,
              found,
              settled-ne task'.state queued q in_flight-queued,
              settled-ne task'.state running q in_flight-running,
              (λ h. r.unknown (in_flight-true task.state h)),
              (λ h k. r.settled (in_flight-false task.state h k)),
            )
        | inl e ↦ elim (Option-cases (get id (recover_entries null clock 0 table.tasks).1)) [
          | inl f ↦ inl (e, f)
          | inr (task', f) ↦
              let (task, found, r) = Updates-get_back id task' changes f in absurd (cc found)
        ]
      ]
