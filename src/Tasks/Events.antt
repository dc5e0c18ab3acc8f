-- ===== src/Tasks/Events.antt =====
-- crates/machine-fabric-core/src/task.rs: a property of single tasks that new tasks have and that
-- `Evolves` keeps holds of every task of every history. So the events are numbered 1, 2, ....
use machine_fabric.Base.{
  ℕ, ◌≤◌, String, ◌≡◌, refl, ◌∙◌, sym, subst, inl, inr, Option, some, List, map, keep, arith, ◌==◌,
  Bool-cases, u64_max,
}
use machine_fabric.BTreeMap.{BTreeMap, get, insert, values, get-insert}
use machine_fabric.BTreeMap.Updates.{Updates-get_back}
use machine_fabric.Schema.{Task}
use machine_fabric.Tasks.Table.{TaskTable, empty, key_of, get_task, put_task}
use machine_fabric.Tasks.Lifecycle.{new_task, requeue, recover_orphans}
use machine_fabric.Tasks.Upkeep.{prunable, prune_ids, prune_terminal_before}
use machine_fabric.Tasks.Cases.{
  transition_cases, retry_cases, retry_with_input_cases, submit_cases, replace_input_ref_cases,
  replace_output_ref_cases,
}
use machine_fabric.Tasks.Methods.{recover_entries-Updates, reuse_table, some-pair_second}
use machine_fabric.Tasks.Evolution.{
  IsNumbered, Evolves, set_input-Evolves, set_output-Evolves, move_to-Evolves, requeue-Evolves,
  requeue-input-Evolves,
}
use machine_fabric.Tasks.History.{prune_ids-get}
use machine_fabric.Tasks.Steps.{
  Step, submits, transitions, retries, retries_with_input, replaces_input, replaces_output, prunes,
  recovers, Reach, here, next,
}

abbrev pub Every : {Value : Type 0} → (Task Value → Type 0) → TaskTable Value → Type 0
Every {Value} P table = (id : String) (task : Task Value) → get_task table id ≡ some task → P task

module _ {Value : Type 0} (P : Task Value → Type 0)
    (kept_by : (a b : Task Value) → Evolves a b → P a → P b) where
  put_task-Every :
      (table : TaskTable Value) (id : String) (task task' : Task Value)
      → get_task table id ≡ some task
      → Evolves task task'
      → Every P table
      → Every P (put_task table id task')
  put_task-Every table id task task' at ev h j c held = elim (Bool-cases (id == j)) [
    | inl e ↦
        let q : task' ≡ c = ground (arith, get-insert id j task' table.tasks) in
        subst P q (kept_by task task' ev (h id task at))
    | inr e ↦ h j c (ground (arith, get-insert id j task' table.tasks))
  ]

  put_twice-Every :
      (table : TaskTable Value) (id : String) (task middle task' : Task Value)
      → get_task table id ≡ some task
      → Evolves task task'
      → Every P table
      → Every P (put_task (put_task table id middle) id task')
  put_twice-Every table id task middle task' at ev h j c held =
      let first = get-insert id j middle table.tasks in
      let second = get-insert id j task' (insert id middle table.tasks) in
      elim (Bool-cases (id == j)) [
        | inl e ↦
            let q : task' ≡ c = ground (arith, second) in
            subst P q (kept_by task task' ev (h id task at))
        | inr e ↦ h j c (ground (arith, first, second))
      ]

  insert_new-Every :
      (table : TaskTable Value) (task : Task Value) (keys : BTreeMap String)
      → P task
      → Every P table
      → Every P (record { tasks = insert task.id task table.tasks; idempotency = keys })
  insert_new-Every table task keys new h j c held = elim (Bool-cases (task.id == j)) [
    | inl e ↦
        let q : task ≡ c = ground (arith, get-insert task.id j task table.tasks) in subst P q new
    | inr e ↦ h j c (ground (arith, get-insert task.id j task table.tasks))
  ]

  prune_ids-Every :
      (table : TaskTable Value) (ids : List String)
      → Every P table
      → Every P (prune_ids table ids).1
  prune_ids-Every table ids h j c held = elim (prune_ids-get table ids j) [
    | inl e ↦ cc
    | inr e ↦ h j c (sym e ∙ held)
  ]

  module _ (null : Value)
      (new : (session executor capability : String) (input : Value) (key : String)
          (correlation_id request_id : Option String) (now event_now : ℕ) (uuid : String)
        → P (
            new_task null session executor capability input key correlation_id request_id now
              event_now uuid)) where
    Step-Every :
        {table table' : TaskTable Value} → Step null table table' → Every P table → Every P table'
    unfolding prune_terminal_before recover_orphans
    Step-Every {table} (submits {table'} q r s t u v w x y z a b m) h =
        submit_cases null (λ r. r ≡ some (a, table') → Every P table') table q r s t u v w x y z
          (λ id e m'. subst (Every P) (reuse_table table table' (get_task table id) a m') h)
          (λ free m'.
            let task = new_task null q r s t u v w x y z in
            subst (Every P) (some-pair_second m') (
              insert_new-Every table task (insert (key_of task) task.id table.idempotency)
                (new q r s t u v w x y z) h))
          m
    Step-Every {table} (transitions id state output error now event_now q) h = rw q (
        transition_cases null (λ r. Every P r.1) table id state output error now event_now (λ _. h)
          (λ _ _ _. h)
          λ task e a.
            put_task-Every table id task _ e
              (move_to-Evolves null task state output error now event_now a) h)
    Step-Every {table} (retries id now event_now q) h = rw q (
        retry_cases null (λ r. Every P r.1) table id now event_now (λ _. h) (λ _ _ _. h)
          λ task e a.
            put_task-Every table id task _ e (requeue-Evolves null task now event_now a) h)
    Step-Every {table} (retries_with_input id input now event_now q) h = rw q (
        retry_with_input_cases null (λ r. Every P r.1) table id input now event_now (λ _. h)
          (λ _ _ _. h)
          λ task e a.
            put_twice-Every table id task (requeue null task now event_now) _ e
              (requeue-input-Evolves null task input now event_now a) h)
    Step-Every {table} (replaces_input id revision marker reference q) h = rw q (
        replace_input_ref_cases (λ r. Every P r.1) table id revision marker reference h
          λ task e _ _.
            put_task-Every table id task _ e (set_input-Evolves task marker (some reference)) h)
    Step-Every {table} (replaces_output id revision marker reference q) h = rw q (
        replace_output_ref_cases (λ r. Every P r.1) table id revision marker reference h
          λ task e _ _.
            put_task-Every table id task _ e
              (set_output-Evolves task (some marker) (some reference)) h)
    Step-Every {table} (prunes cutoff q) h =
        rw (q, prune_terminal_before)
          (prune_ids-Every table
            (map (λ task. task.id) (keep (prunable cutoff) (values table.tasks))) h)
    Step-Every {table} (recovers clock q) h =
        rw (q, recover_orphans)
          λ j c held.
            let (a, found, r) =
              Updates-get_back j c (recover_entries-Updates null clock 0 table.tasks) held in
            kept_by a c r.evolves (h j a found)

    pub Reach-Every :
        {table table' : TaskTable Value} → Reach null table table' → Every P table → Every P table'
    Reach-Every here h = h
    Reach-Every (next r s) h = Step-Every s (Reach-Every r h)

-- The events of a task carry the numbers 1, 2, ... in order, and its revision fits a `u64`.
abbrev pub IsAudited : {Value : Type 0} → Task Value → Type 0
IsAudited task = IsNumbered 1 task.events × (1 ≤ task.revision) × (task.revision ≤ u64_max)

IsAudited-Evolves : {Value : Type 0} (a b : Task Value) → Evolves a b → IsAudited a → IsAudited b
IsAudited-Evolves a b ev w = (ev.numbered w.0, omega (arith, ev.revised w.2), (ev.revised w.2).1)

-- In every table reached from the empty one, each task's events are numbered 1, 2, ... in order, and
-- its revision is between 1 and the largest `u64`.
pub Reach-IsAudited :
    {Value : Type 0} (null : Value) (table : TaskTable Value) (id : String) (task : Task Value)
    → Reach null empty table
    → get_task table id ≡ some task
    → IsAudited task
unfolding get new_task
Reach-IsAudited null table id task r held =
    Reach-Every IsAudited IsAudited-Evolves null
      (λ _ _ _ _ _ _ _ _ _ _. ((refl, tt), omega arith, omega arith)) r (λ j c found. cc) id task
      held
