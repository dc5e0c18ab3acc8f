-- ===== src/Tasks/History.antt =====
-- crates/machine-fabric-core/src/task.rs: what every history of a table keeps of each of its tasks.
use machine_fabric.Base.{
  ℕ, String, ◌≡◌, refl, ◌∙◌, subst, Bool, ◌⊎◌, inl, inr, Option, none, some, List, [], ◌∷◌, map,
  keep, arith, eq_iff,
}
use machine_fabric.BTreeMap.{insert, values, get-insert, get-remove}
use machine_fabric.BTreeMap.Updates.{Updates-get}
use machine_fabric.Schema.{Task}
use machine_fabric.Tasks.Table.{TaskTable, ◌⊕◌, key_of, get_task}
use machine_fabric.Tasks.Lifecycle.{new_task, submit_traced, requeue, recover_orphans}
use machine_fabric.Tasks.Upkeep.{prunable, prune_found, prune_ids, prune_terminal_before}
use machine_fabric.Tasks.Cases.{
  transition_cases, retry_cases, retry_with_input_cases, submit_cases, replace_input_ref_cases,
  replace_output_ref_cases,
}
use machine_fabric.Tasks.Methods.{recover_entries-Updates, reuse_table, some-pair_second}
use machine_fabric.Tasks.Evolution.{
  Later, gone, kept, Stays, stays, Evolves-refl, set_input-Evolves, set_output-Evolves,
  move_to-Evolves, requeue-Evolves, requeue-input-Evolves, put_task-Stays, put_twice-Stays,
}
use machine_fabric.Tasks.Steps.{
  Step, submits, transitions, retries, retries_with_input, replaces_input, replaces_output, prunes,
  recovers,
}

module _ {Value : Type 0} where
  same-Stays :
      (table table' : TaskTable Value) (j : String) (c : Task Value)
      → get_task table' j ≡ get_task table j
      → get_task table j ≡ some c
      → Stays table' j c
  same-Stays table table' j c q held = stays c (q ∙ held) (Evolves-refl c)

  prune_found-get :
      (table : TaskTable Value) (id : String) (found : Option (Task Value)) (j : String)
      → (get_task (prune_found table id found) j ≡ none)
        ⊎ (get_task (prune_found table id found) j ≡ get_task table j)
  prune_found-get table id none j = inr refl
  prune_found-get table id (some task) j = ground (arith, get-remove id j table.tasks)

  pub prune_ids-get :
      (table : TaskTable Value) (ids : List String) (j : String)
      → (get_task (prune_ids table ids).1 j ≡ none)
        ⊎ (get_task (prune_ids table ids).1 j ≡ get_task table j)
  unfolding prune_ids
  prune_ids-get table [] j = inr refl
  prune_ids-get table (id ∷ ids) j = ground (
    arith,
    prune_found-get table id (get_task table id) j,
    prune_ids-get (prune_found table id (get_task table id)) ids j,
  )

  prune-Stays :
      (table : TaskTable Value) (cutoff : ℕ) (j : String) (c : Task Value)
      → get_task table j ≡ some c
      → (get_task (prune_terminal_before table cutoff).1 j ≡ none)
        ⊎ Stays (prune_terminal_before table cutoff).1 j c
  unfolding prune_terminal_before
  prune-Stays table cutoff j c held =
      let ids = map (λ task. task.id) (keep (prunable cutoff) (values table.tasks)) in
      elim (prune_ids-get table ids j) [
        | inl e ↦ inl e
        | inr e ↦ inr (same-Stays table (prune_ids table ids).1 j c e held)
      ]

module _ {Value : Type 0} (null : Value) where
  submit-Stays :
      (table table' : TaskTable Value) (session executor capability : String) (input : Value)
      (key : String) (correlation_id request_id : Option String) (now event_now : ℕ) (uuid : String)
      (answer : Task Value × Bool) (j : String) (c : Task Value)
      → get_task table ("task_" ⊕ uuid) ≡ none
      → submit_traced null table session executor capability input key correlation_id request_id now
          event_now uuid
        ≡ some (answer, table')
      → get_task table j ≡ some c
      → Stays table' j c
  unfolding new_task
  submit-Stays table table' session executor capability input key correlation_id request_id now
        event_now uuid answer j c fresh h held =
      submit_cases null (λ r. r ≡ some (answer, table') → Stays table' j c) table session executor
        capability input key correlation_id request_id now event_now uuid
        (λ id e h'.
          subst (λ t. Stays t j c) (reuse_table table table' (get_task table id) answer h')
            (same-Stays table table j c refl held))
        (λ free h'.
          let task =
            new_task null session executor capability input key correlation_id request_id now
              event_now uuid in
          subst (λ t. Stays t j c) (some-pair_second h')
            (same-Stays table
              (record {
                tasks = insert task.id task table.tasks;
                idempotency = insert (key_of task) task.id table.idempotency;
              })
              j c (ground (arith, get-insert task.id j task table.tasks, eq_iff task.id j)) held))
        h

  recover-Stays :
      (table : TaskTable Value) (clock : ℕ → ℕ) (j : String) (c : Task Value)
      → get_task table j ≡ some c
      → Stays (recover_orphans null table clock).1 j c
  unfolding recover_orphans
  recover-Stays table clock j c held =
      let (b, found, r) = Updates-get j c (recover_entries-Updates null clock 0 table.tasks) held in
      stays b found r.evolves

  -- A step that is a pruning.
  abbrev pub Prunes : {table table' : TaskTable Value} → Step null table table' → Type 0
  Prunes (prunes cutoff q) = Unit
  Prunes _ = ⊥

  -- Each method but the pruning leaves each task of the table as it was or changed as `Evolves` says.
  pub Step-Stays :
      {table table' : TaskTable Value} (j : String) (c : Task Value) (step : Step null table table')
      → get_task table j ≡ some c
      → Stays table' j c ⊎ (Prunes step × (get_task table' j ≡ none))
  Step-Stays {table} j c (submits {table'} q r s t u v w x y z a b h) held =
      inl (submit-Stays table table' q r s t u v w x y z a j c b h held)
  Step-Stays {table} j c (transitions id state output error now event_now q) held = rw q (
      inl (
        transition_cases null (λ r. Stays r.1 j c) table id state output error now event_now
          (λ _. same-Stays table table j c refl held)
          (λ _ _ _. same-Stays table table j c refl held)
          λ task e a.
            put_task-Stays table id j task _ c e
              (move_to-Evolves null task state output error now event_now a) held))
  Step-Stays {table} j c (retries id now event_now q) held = rw q (
      inl (
        retry_cases null (λ r. Stays r.1 j c) table id now event_now
          (λ _. same-Stays table table j c refl held)
          (λ _ _ _. same-Stays table table j c refl held)
          λ task e a.
            put_task-Stays table id j task _ c e (requeue-Evolves null task now event_now a) held))
  Step-Stays {table} j c (retries_with_input id input now event_now q) held = rw q (
      inl (
        retry_with_input_cases null (λ r. Stays r.1 j c) table id input now event_now
          (λ _. same-Stays table table j c refl held)
          (λ _ _ _. same-Stays table table j c refl held)
          λ task e a.
            put_twice-Stays table id j task (requeue null task now event_now) _ c e
              (requeue-input-Evolves null task input now event_now a) held))
  Step-Stays {table} j c (replaces_input id revision marker reference q) held = rw q (
      inl (
        replace_input_ref_cases (λ r. Stays r.1 j c) table id revision marker reference
          (same-Stays table table j c refl held)
          λ task e _ _.
            put_task-Stays table id j task _ c e (set_input-Evolves task marker (some reference))
              held))
  Step-Stays {table} j c (replaces_output id revision marker reference q) held = rw q (
      inl (
        replace_output_ref_cases (λ r. Stays r.1 j c) table id revision marker reference
          (same-Stays table table j c refl held)
          λ task e _ _.
            put_task-Stays table id j task _ c e
              (set_output-Evolves task (some marker) (some reference)) held))
  Step-Stays {table} j c (prunes cutoff q) held =
      rw q (elim (prune-Stays table cutoff j c held) [ inl e ↦ inr (tt, e) | inr s ↦ inl s ])
  Step-Stays {table} j c (recovers clock q) held = rw q (inl (recover-Stays table clock j c held))

  -- Each method leaves each task of the table as it was, changed as `Evolves` says, or gone.
  pub Step-Later :
      {table table' : TaskTable Value} (j : String) (c : Task Value)
      → Step null table table'
      → get_task table j ≡ some c
      → Later table' j c
  Step-Later j c step held = elim (Step-Stays j c step held) [
    | inl s ↦ kept s.later s.found s.evolves
    | inr (_, e) ↦ gone e
  ]
