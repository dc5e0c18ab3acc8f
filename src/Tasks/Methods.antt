-- ===== src/Tasks/Methods.antt =====
-- crates/machine-fabric-core/src/task.rs: each method keeps the two maps of a table consistent.
use machine_fabric.Base.{
  ℕ, ◌+◌, String, ◌≡◌, refl, ◌∙◌, subst, Bool, inl, inr, Option, none, some, List, [], ◌∷◌, eq_refl,
  map, keep, Bool-cases,
}
use machine_fabric.BTreeMap.{BTreeMap, get-insert, values}
use machine_fabric.Schema.{Task, TaskState, TaskError as TaskFailure, TaskPayloadRef}
use machine_fabric.Tasks.Table.{TaskTable, ◌⊕◌, get_task, put_task, in_flight}
use machine_fabric.Tasks.Lifecycle.{
  new_task, reuse, submit_traced, move_to, transition, requeue, retry, retry_with_input,
  recover_entries, recover_orphans,
}
use machine_fabric.Tasks.Upkeep.{
  replace_input_ref_if_unchanged, replace_output_ref_if_unchanged, prunable, prune_found, prune_ids,
  prune_terminal_before,
}
use machine_fabric.BTreeMap.Updates.{
  Updates, done, update, Updates-IsSorted, Updates-get, Updates-get_back,
}
use machine_fabric.Tasks.Cases.{
  transition_cases, retry_cases, retry_with_input_cases, submit_cases, replace_input_ref_cases,
  replace_output_ref_cases,
}
use machine_fabric.Tasks.Evolution.{Recovers, Evolves-refl, orphan-Evolves}
use machine_fabric.Tasks.Consistent.{
  IsConsistent, SameIdentity, put_task-IsConsistent, insert_new-IsConsistent,
  prune_found-IsConsistent,
}

pub reuse_table :
    {Value : Type 0} (table table' : TaskTable Value) (held : Option (Task Value))
    (answer : Task Value × Bool)
    → reuse table held ≡ some (answer, table')
    → table ≡ table'
reuse_table table table' none answer h = cc
reuse_table table table' (some task) answer h = cc

pub some-pair_second :
    {A B : Type 0} {a a' : A} {b b' : B}
    → ◌≡◌ {A = Option (A × B)} (some (a, b)) (some (a', b'))
    → b ≡ b'
some-pair_second h = cc

Updates-IsConsistent :
    {Value : Type 0} {R : Task Value → Task Value → Type 0} (table : TaskTable Value)
    (entries : BTreeMap (Task Value))
    → Updates R table.tasks entries
    → ((a b : Task Value) → R a b → SameIdentity a b)
    → IsConsistent table
    → IsConsistent (record table { tasks = entries })
Updates-IsConsistent table entries u same c = record {
  tasks_sorted = Updates-IsSorted u c.tasks_sorted;
  keys_sorted = c.keys_sorted;
  keyed = λ id b p.
      let (a, held, r) = Updates-get_back id b u p in
      let s = same a b r in s.id ∙ c.keyed id a held;
  indexed = λ id b p.
      let (a, held, r) = Updates-get_back id b u p in
      let s = same a b r in rw s.key (c.indexed id a held);
  covered = λ key id p.
      let (a, held, k) = c.covered key id p in
      let (b, found, r) = Updates-get id a u held in let s = same a b r in (b, found, s.key ∙ k);
}

module _ {Value : Type 0} (null : Value) where
  pub transition-IsConsistent :
      (table : TaskTable Value) (id : String) (state : TaskState) (output : Option Value)
      (error : Option (TaskFailure Value)) (now event_now : ℕ)
      → IsConsistent table
      → IsConsistent (transition null table id state output error now event_now).1
  unfolding move_to
  transition-IsConsistent table id state output error now event_now c =
      transition_cases null (λ r. IsConsistent r.1) table id state output error now event_now
        (λ _. c) (λ _ _ _. c)
        λ task e _. put_task-IsConsistent table id task _ e (record { id = refl; key = refl }) c

  pub retry-IsConsistent :
      (table : TaskTable Value) (id : String) (now event_now : ℕ)
      → IsConsistent table
      → IsConsistent (retry null table id now event_now).1
  unfolding requeue
  retry-IsConsistent table id now event_now c =
      retry_cases null (λ r. IsConsistent r.1) table id now event_now (λ _. c) (λ _ _ _. c)
        λ task e _. put_task-IsConsistent table id task _ e (record { id = refl; key = refl }) c

  pub retry_with_input-IsConsistent :
      (table : TaskTable Value) (id : String) (input : Value) (now event_now : ℕ)
      → IsConsistent table
      → IsConsistent (retry_with_input null table id input now event_now).1
  unfolding requeue
  retry_with_input-IsConsistent table id input now event_now c =
      retry_with_input_cases null (λ r. IsConsistent r.1) table id input now event_now (λ _. c)
        (λ _ _ _. c)
        λ task e _.
          put_task-IsConsistent (put_task table id (requeue null task now event_now)) id
            (requeue null task now event_now) _
            (rw (get-insert id id (requeue null task now event_now) table.tasks, eq_refl id))
            (record { id = refl; key = refl })
            (put_task-IsConsistent table id task _ e (record { id = refl; key = refl }) c)

  pub submit-IsConsistent :
      (table table' : TaskTable Value) (session executor capability : String) (input : Value)
      (key : String) (correlation_id request_id : Option String) (now event_now : ℕ) (uuid : String)
      (answer : Task Value × Bool)
      → get_task table ("task_" ⊕ uuid) ≡ none
      → submit_traced null table session executor capability input key correlation_id request_id now
          event_now uuid
        ≡ some (answer, table')
      → IsConsistent table
      → IsConsistent table'
  unfolding new_task
  submit-IsConsistent table table' session executor capability input key correlation_id request_id
        now event_now uuid answer fresh h c =
      submit_cases null (λ r. r ≡ some (answer, table') → IsConsistent table') table session
        executor capability input key correlation_id request_id now event_now uuid
        (λ id e h'. subst IsConsistent (reuse_table table table' (get_task table id) answer h') c)
        (λ free h'. subst IsConsistent (some-pair_second h') (
          insert_new-IsConsistent table
            (new_task null session executor capability input key correlation_id request_id now
              event_now uuid)
            fresh free c))
        h

  pub recover_entries-Updates :
      (clock : ℕ → ℕ) (n : ℕ) (m : BTreeMap (Task Value))
      → Updates Recovers m (recover_entries null clock n m).1
  unfolding recover_entries
  recover_entries-Updates clock n [] = done
  recover_entries-Updates clock n ((id, task) ∷ m) = elim (Bool-cases (in_flight task.state)) [
    | inl e ↦ rw e (
        update
          (record {
            evolves = orphan-Evolves null task (clock n) (clock (n + 1)) e;
            settled = λ f. cc;
            unknown = λ _. refl;
          })
          (recover_entries-Updates clock (n + 2) m))
    | inr e ↦ rw e (
        update (record { evolves = Evolves-refl task; settled = λ _. refl; unknown = λ f. cc })
          (recover_entries-Updates clock n m))
  ]

  pub recover_orphans-IsConsistent :
      (table : TaskTable Value) (clock : ℕ → ℕ)
      → IsConsistent table
      → IsConsistent (recover_orphans null table clock).1
  unfolding recover_orphans
  recover_orphans-IsConsistent table clock c =
      Updates-IsConsistent table _ (recover_entries-Updates clock 0 table.tasks)
        (λ a b r. r.evolves.same) c

module _ {Value : Type 0} where
  pub replace_input_ref-IsConsistent :
      (table : TaskTable Value) (id : String) (revision : ℕ) (marker : Value)
      (reference : TaskPayloadRef)
      → IsConsistent table
      → IsConsistent (replace_input_ref_if_unchanged table id revision marker reference).1
  replace_input_ref-IsConsistent table id revision marker reference c =
      replace_input_ref_cases (λ r. IsConsistent r.1) table id revision marker reference c
        λ task e _ _. put_task-IsConsistent table id task _ e (record { id = refl; key = refl }) c

  pub replace_output_ref-IsConsistent :
      (table : TaskTable Value) (id : String) (revision : ℕ) (marker : Value)
      (reference : TaskPayloadRef)
      → IsConsistent table
      → IsConsistent (replace_output_ref_if_unchanged table id revision marker reference).1
  replace_output_ref-IsConsistent table id revision marker reference c =
      replace_output_ref_cases (λ r. IsConsistent r.1) table id revision marker reference c
        λ task e _ _. put_task-IsConsistent table id task _ e (record { id = refl; key = refl }) c

  prune_ids-IsConsistent :
      (table : TaskTable Value) (ids : List String)
      → IsConsistent table
      → IsConsistent (prune_ids table ids).1
  unfolding prune_ids
  prune_ids-IsConsistent table [] c = c
  prune_ids-IsConsistent table (id ∷ ids) c =
      prune_ids-IsConsistent (prune_found table id (get_task table id)) ids
        (prune_found-IsConsistent table id (get_task table id) refl c)

  pub prune-IsConsistent :
      (table : TaskTable Value) (cutoff : ℕ)
      → IsConsistent table
      → IsConsistent (prune_terminal_before table cutoff).1
  unfolding prune_terminal_before
  prune-IsConsistent table cutoff c =
      prune_ids-IsConsistent table
        (map (λ task. task.id) (keep (prunable cutoff) (values table.tasks))) c
