-- ===== src/Tasks/Prune.antt =====
-- crates/machine-fabric-core/src/task.rs: what `prune_terminal_before` removes.
use mathlib.Core.Option.{some-injective}
use machine_fabric.Base.{
  ℕ, ◌<◌, ◌&&◌, ltb, String, ◌≡◌, refl, ap, ◌∙◌, sym, subst, true, false, inl, inr, Option, none,
  some, List, [], ◌∷◌, map, keep, arith, eq_iff, ◌==◌, if◌then◌else◌, Bool-cases, Option-cases,
}
use machine_fabric.BTreeMap.{get, values, get-remove}
use machine_fabric.BTreeMap.Select.{listed, selected, listed-selected}
use machine_fabric.Schema.{Task, terminal}
use machine_fabric.Tasks.Table.{TaskTable, key_of, get_task}
use machine_fabric.Tasks.Upkeep.{prunable, prune_found, prune_ids, prune_terminal_before}
use machine_fabric.Tasks.Consistent.{IsConsistent}
use machine_fabric.Tasks.Methods.{prune-IsConsistent}

subst_some : {A : Type 0} (P : A → Type 0) {a b : A} → some a ≡ some b → P a → P b
subst_some P {a} {b} h = subst P (some-injective a b h)

-- What pruning leaves of a task.
abbrev pub unpruned : {Value : Type 0} → ℕ → Option (Task Value) → Option (Task Value)
unpruned cutoff none = none
unpruned cutoff (some task) =
    if terminal task.state && ltb task.updated_at cutoff then none else some task

module _ {Value : Type 0} where
  prune_found-lookup :
      (table : TaskTable Value) (id : String) (found : Option (Task Value)) (j : String)
      → get_task table id ≡ found
      → get_task (prune_found table id found) j ≡ (if id == j then none else get_task table j)
  prune_found-lookup table id none j e = ground (arith, eq_iff id j)
  prune_found-lookup table id (some task) j e = get-remove id j table.tasks

  prune_ids-lookup :
      (table : TaskTable Value) (ids : List String) (j : String)
      → get_task (prune_ids table ids).1 j ≡ (if listed j ids then none else get_task table j)
  unfolding prune_ids
  prune_ids-lookup table [] j = refl
  prune_ids-lookup table (id ∷ ids) j = ground (
    arith,
    prune_found-lookup table id (get_task table id) j refl,
    prune_ids-lookup (prune_found table id (get_task table id)) ids j,
  )

  selected-unpruned :
      (cutoff : ℕ) (held : Option (Task Value))
      → (if selected (prunable cutoff) held then none else held) ≡ unpruned cutoff held
  unfolding prunable
  selected-unpruned cutoff none = refl
  selected-unpruned cutoff (some task) = refl

  unpruned-some :
      (cutoff : ℕ) (held : Option (Task Value)) (task : Task Value)
      → unpruned cutoff held ≡ some task
      → (held ≡ some task) × (prunable cutoff task ≡ false)
  unfolding prunable
  unpruned-some cutoff none task h = cc
  unpruned-some cutoff (some u) task h = elim (Bool-cases (prunable cutoff u)) [
    | inl e ↦ absurd (cc (rw e at h))
    | inr e ↦
        let q = rw e at h in (q, subst_some (λ (x : Task Value). prunable cutoff x ≡ false) q e)
  ]

  -- On a consistent table `prune_terminal_before` removes exactly the terminal tasks that were last
  -- updated before the cutoff, and leaves every other task as it was.
  pub prune_exact :
      (table : TaskTable Value) (cutoff : ℕ) (id : String)
      → IsConsistent table
      → get_task (prune_terminal_before table cutoff).1 id ≡ unpruned cutoff (get_task table id)
  unfolding prune_terminal_before
  prune_exact table cutoff id c =
      let ids = map (λ task. task.id) (keep (prunable cutoff) (values table.tasks)) in
      prune_ids-lookup table ids id
      ∙ ap (λ b. if b then none else get_task table id)
          (listed-selected (prunable cutoff) (λ task. task.id) table.tasks id c.tasks_sorted
            c.keyed)
      ∙ selected-unpruned cutoff (get_task table id)

  prunable-true :
      (cutoff : ℕ) (task : Task Value)
      → terminal task.state ≡ true
      → task.updated_at < cutoff
      → prunable cutoff task ≡ true
  unfolding prunable
  prunable-true cutoff task ended old = ground (arith, ended, old)

  -- The scoped key of a terminal task that was last updated before the cutoff is free after the
  -- pruning.
  pub prune_frees :
      (table : TaskTable Value) (cutoff : ℕ) (id : String) (task : Task Value)
      → IsConsistent table
      → get_task table id ≡ some task
      → terminal task.state ≡ true
      → task.updated_at < cutoff
      → get (key_of task) (prune_terminal_before table cutoff).1.idempotency ≡ none
  prune_frees table cutoff id task c held ended old =
      let outdated = prunable-true cutoff task ended old in
      let table' = (prune_terminal_before table cutoff).1 in
      elim (Option-cases (get (key_of task) table'.idempotency)) [
        | inl e ↦ e
        | inr (i, e) ↦
            let (u, found, same) = (prune-IsConsistent table cutoff c).covered (key_of task) i e in
            let (at, young) =
              unpruned-some cutoff (get_task table i) u
                (sym (prune_exact table cutoff i c) ∙ found) in
            let one = c.indexed i u at in
            let two = c.indexed id task held in
            let ids_eq : i ≡ id = cc in
            let tasks_eq : u ≡ task = cc in absurd (cc (ap (prunable cutoff) tasks_eq))
      ]
