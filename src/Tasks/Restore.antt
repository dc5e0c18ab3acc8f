-- ===== src/Tasks/Restore.antt =====
-- crates/machine-fabric-core/src/task.rs: `from_tasks` rebuilds a table from its `snapshot`.
use machine_fabric.Base.{
  String, ◌≡◌, ◌≢◌, refl, ap, ◌∙◌, sym, subst, inl, inr, Option, none, some, List, [], ◌∷◌, arith,
  eq_iff, eq_refl, ◌==◌, if◌then◌else◌, Bool-cases, Option-cases,
}
use machine_fabric.BTreeMap.{BTreeMap, get, insert, values, get-insert}
use machine_fabric.BTreeMap.Order.{
  Above-IsSorted, IsSorted, IsSorted-ext, insert-IsSorted, get-Above,
}
use machine_fabric.Schema.{Task}
use machine_fabric.Tasks.Table.{
  TaskTable, empty, key_of, get_task, snapshot, from_tasks, from_tasks_onto,
}
use machine_fabric.Tasks.Consistent.{IsConsistent}
use machine_fabric.BTreeMap.Select.{get-tail_some, get-first}

-- The id of the first entry whose task has the scoped key.
find_key : {Value : Type 0} → String → BTreeMap (Task Value) → Option String
find_key k [] = none
find_key k ((i, v) ∷ m) = if key_of v == k then some i else find_key k m

abbrev or_else : {A : Type 0} → Option A → Option A → Option A
or_else none b = b
or_else (some a) b = some a

or_else-none : {A : Type 0} (a : Option A) → or_else a none ≡ a
or_else-none none = refl
or_else-none (some a) = refl

-- The table after one task of `from_tasks`.
abbrev loaded : {Value : Type 0} → TaskTable Value → Task Value → TaskTable Value
loaded acc task = record {
  tasks = insert task.id task acc.tasks;
  idempotency = insert (key_of task) task.id acc.idempotency;
}

module _ {Value : Type 0} where
  find_key_sound :
      (k i : String) (m : BTreeMap (Task Value))
      → IsSorted m
      → find_key k m ≡ some i
      → (task : Task Value) × (get i m ≡ some task) × (key_of task ≡ k)
  unfolding find_key
  find_key_sound k i [] s h = cc
  find_key_sound k i ((j, v) ∷ m) s h = elim (Bool-cases (key_of v == k)) [
    | inl e ↦
        let q : j ≡ i = ground arith in
        (v, subst (λ x. get x ((j, v) ∷ m) ≡ some v) q (get-first j v m), (eq_iff (key_of v) k).0 e)
    | inr e ↦
        let (t, held, same) = find_key_sound k i m (Above-IsSorted j m s) (ground arith) in
        (t, get-tail_some j i v t m s held, same)
  ]

  find_key_complete :
      (i : String) (task : Task Value) (m : BTreeMap (Task Value))
      → get i m ≡ some task
      → find_key (key_of task) m ≢ none
  unfolding find_key get
  find_key_complete i task [] h q = cc
  find_key_complete i task ((j, v) ∷ m) h q =
      ground (arith, find_key_complete i task m, eq_iff j i, eq_refl (key_of v), ap key_of)

  onto-tasks :
      (acc : TaskTable Value) (m : BTreeMap (Task Value)) (j : String)
      → IsSorted m
      → ((k : String) (task : Task Value) → get k m ≡ some task → task.id ≡ k)
      → get_task (from_tasks_onto acc (values m)) j ≡ or_else (get j m) (get_task acc j)
  unfolding from_tasks_onto get
  onto-tasks acc [] j s keyed = refl
  onto-tasks acc ((i, v) ∷ m) j s keyed = ground (
    arith,
    onto-tasks (loaded acc v) m j (Above-IsSorted i m s)
        (λ k w h. keyed k w (get-tail_some i k v w m s h)),
    get-insert v.id j v acc.tasks,
    keyed i v (get-first i v m),
    get-Above i m s,
    eq_iff i j,
    eq_iff v.id j,
  )

  -- The keys of different entries differ.
  abbrev Distinct : BTreeMap (Task Value) → Type 0
  Distinct [] = Unit
  Distinct ((i, v) ∷ m) = (find_key (key_of v) m ≡ none) × Distinct m

  onto-keys :
      (acc : TaskTable Value) (m : BTreeMap (Task Value)) (k : String)
      → IsSorted m
      → ((j : String) (task : Task Value) → get j m ≡ some task → task.id ≡ j)
      → Distinct m
      → get k (from_tasks_onto acc (values m)).idempotency
        ≡ or_else (find_key k m) (get k acc.idempotency)
  unfolding from_tasks_onto find_key
  onto-keys acc [] k s keyed d = refl
  onto-keys acc ((i, v) ∷ m) k s keyed d = ground (
    arith,
    onto-keys (loaded acc v) m k (Above-IsSorted i m s)
        (λ j w h. keyed j w (get-tail_some i j v w m s h)) d.1,
    get-insert (key_of v) k v.id acc.idempotency,
    keyed i v (get-first i v m),
    d.0,
    eq_iff (key_of v) k,
  )

  indexed-Distinct :
      (keys : BTreeMap String) (m : BTreeMap (Task Value))
      → IsSorted m
      → ((j : String) (task : Task Value) → get j m ≡ some task → get (key_of task) keys ≡ some j)
      → Distinct m
  indexed-Distinct keys [] s h = tt
  indexed-Distinct keys ((i, v) ∷ m) s h = (
    first (find_key (key_of v) m) refl,
    indexed-Distinct keys m (Above-IsSorted i m s) (λ k w q. h k w (get-tail_some i k v w m s q)),
  )
    where
      first : (o : Option String) → find_key (key_of v) m ≡ o → find_key (key_of v) m ≡ none
      first none e = e
      first (some j) e =
          let (w, held, same) = find_key_sound (key_of v) j m (Above-IsSorted i m s) e in
          let q : i ≡ j =
            cc (h i v (get-first i v m), h j w (get-tail_some i j v w m s held), same) in
          absurd (cc (q, held, get-Above i m s))

  onto-IsSorted :
      (acc : TaskTable Value) (tasks : List (Task Value))
      → IsSorted acc.tasks
      → IsSorted acc.idempotency
      → IsSorted (from_tasks_onto acc tasks).tasks
        × IsSorted (from_tasks_onto acc tasks).idempotency
  unfolding from_tasks_onto
  onto-IsSorted acc [] s t = (s, t)
  onto-IsSorted acc (task ∷ tasks) s t =
      onto-IsSorted (loaded acc task) tasks (insert-IsSorted task.id task acc.tasks s)
        (insert-IsSorted (key_of task) task.id acc.idempotency t)

  find_key-get :
      (table : TaskTable Value) (k : String)
      → IsConsistent table
      → find_key k table.tasks ≡ get k table.idempotency
  find_key-get table k c = elim (Option-cases (get k table.idempotency)) [
    | inr (i, e) ↦
        let (task, held, same) = c.covered k i e in
        elim (Option-cases (find_key k table.tasks)) [
          | inl f ↦ absurd (
              find_key_complete i task table.tasks held (ap (λ x. find_key x table.tasks) same ∙ f))
          | inr (j, f) ↦
              let (u, at, same') = find_key_sound k j table.tasks c.tasks_sorted f in
              let here = c.indexed j u at in cc (ap (λ x. get x table.idempotency) same')
        ]
    | inl e ↦ elim (Option-cases (find_key k table.tasks)) [
      | inl f ↦ f ∙ sym e
      | inr (j, f) ↦
          let (u, at, same') = find_key_sound k j table.tasks c.tasks_sorted f in
          let here = c.indexed j u at in absurd (cc (ap (λ x. get x table.idempotency) same'))
    ]
  ]

  -- A consistent table is what `from_tasks` makes of its snapshot: a restart that saves and loads the
  -- tasks loses nothing, the idempotency map included.
  pub from_tasks-snapshot :
      (table : TaskTable Value) → IsConsistent table → from_tasks (snapshot table) ≡ table
  unfolding from_tasks snapshot get
  from_tasks-snapshot table c =
      let sorted = onto-IsSorted empty (values table.tasks) tt tt in
      let same_tasks =
        IsSorted-ext (from_tasks (snapshot table)).tasks table.tasks sorted.0 c.tasks_sorted (λ j.
          onto-tasks empty table.tasks j c.tasks_sorted c.keyed
          ∙ or_else-none (get j table.tasks)) in
      let same_keys =
        IsSorted-ext (from_tasks (snapshot table)).idempotency table.idempotency sorted.1
          c.keys_sorted
          (λ k.
            onto-keys empty table.tasks k c.tasks_sorted c.keyed
              (indexed-Distinct table.idempotency table.tasks c.tasks_sorted c.indexed)
            ∙ or_else-none (find_key k table.tasks)
            ∙ find_key-get table k c) in
      λ i. record { tasks = same_tasks i; idempotency = same_keys i }
