-- ===== src/Tasks/Upkeep.antt =====
-- crates/machine-fabric-core/src/task.rs: pages, payload references and pruning.
use machine_fabric.Base.{
  ℕ, ◌+◌, String, Bool, true, false, not, ◌&&◌, ◌||◌, Option, none, some, List, [], ◌∷◌, ◌++◌, map,
  ltb, leb, nat_eq, length, keep, is_some, if◌then◌else◌,
}
use machine_fabric.BTreeMap.{remove, values}
use machine_fabric.Schema.{Task, TaskPayloadRef, terminal}
use machine_fabric.Tasks.Table.{TaskTable, key_of, get_task, put_task}

module _ {Value : Type 0} where
  -- The loop of `page_by` over the tasks that satisfy the predicate.
  unfoldable pub page_loop :
      ℕ → ℕ → ℕ → List (Task Value) → List (Task Value) → ℕ × List (Task Value)
  page_loop cursor limit total page [] = (total, page)
  page_loop cursor limit total page (task ∷ tasks) =
      page_loop cursor limit (total + 1)
        (if leb cursor total && ltb (length page) limit then page ++ task ∷ [] else page) tasks

  unfoldable pub page_by : TaskTable Value → ℕ → ℕ → (Task Value → Bool) → ℕ × List (Task Value)
  unfolding page_loop
  page_by table cursor limit predicate =
      page_loop cursor limit 0 [] (keep predicate (values table.tasks))

  unfoldable pub replace_input_ref_if_unchanged :
      TaskTable Value → String → ℕ → Value → TaskPayloadRef → Bool × TaskTable Value
  replace_input_ref_if_unchanged table id revision marker reference = elim (get_task table id) [
    | none ↦ (false, table)
    | some task ↦
        if not (nat_eq task.revision revision) || is_some task.input_ref
        then (false, table)
        else (true, put_task table id (record task { input = marker; input_ref = some reference }))
  ]

  unfoldable pub replace_output_ref_if_unchanged :
      TaskTable Value → String → ℕ → Value → TaskPayloadRef → Bool × TaskTable Value
  replace_output_ref_if_unchanged table id revision marker reference = elim (get_task table id) [
    | none ↦ (false, table)
    | some task ↦
        if not (nat_eq task.revision revision) || is_some task.output_ref then (false, table) else (
          true,
          put_task table id (record task { output = some marker; output_ref = some reference }),
        )
  ]

  unfoldable pub prunable : ℕ → Task Value → Bool
  unfolding terminal
  prunable cutoff task = terminal task.state && ltb task.updated_at cutoff

  -- One round of the loop over the ids.
  abbrev pub prune_found : TaskTable Value → String → Option (Task Value) → TaskTable Value
  prune_found table id none = table
  prune_found table id (some task) = record {
    tasks = remove id table.tasks;
    idempotency = remove (key_of task) table.idempotency;
  }

  unfoldable pub prune_ids : TaskTable Value → List String → List (Task Value) × TaskTable Value
  prune_ids table [] = ([], table)
  prune_ids table (id ∷ ids) =
      let found = get_task table id in
      let (removed, table') = prune_ids (prune_found table id found) ids in
      (elim found [ none ↦ removed | some task ↦ task ∷ removed ], table')

  unfoldable pub prune_terminal_before : TaskTable Value → ℕ → List (Task Value) × TaskTable Value
  unfolding prunable prune_ids
  prune_terminal_before table cutoff =
      prune_ids table (map (λ task. task.id) (keep (prunable cutoff) (values table.tasks)))
