-- ===== src/Tasks/Consistent.antt =====
-- crates/machine-fabric-core/src/task.rs: the two maps of a task table agree, after every method.
use machine_fabric.Base.{String, ◌≡◌, inl, inr, Option, none, some, arith, eq_iff, ◌==◌, Bool-cases}
use machine_fabric.BTreeMap.{get, insert, get-insert, get-remove}
use machine_fabric.BTreeMap.Order.{IsSorted, insert-IsSorted, remove-IsSorted}
use machine_fabric.Schema.{Task}
use machine_fabric.Tasks.Table.{TaskTable, key_of, get_task, put_task}
use machine_fabric.Tasks.Upkeep.{prune_found}

-- Every task stands under its own id, the idempotency map leads from its scoped key to it, and
-- leads nowhere else.
pub record IsConsistent {Value : Type 0} (table : TaskTable Value) : Type 0 where
  pub tasks_sorted : IsSorted table.tasks
  pub keys_sorted : IsSorted table.idempotency
  pub keyed : (id : String) (task : Task Value) → get_task table id ≡ some task → task.id ≡ id
  pub indexed :
      (id : String) (task : Task Value)
      → get_task table id ≡ some task
      → get (key_of task) table.idempotency ≡ some id
  pub covered :
      (key id : String)
      → get key table.idempotency ≡ some id
      → (task : Task Value) × (get_task table id ≡ some task) × (key_of task ≡ key)

-- A change of a task that keeps what identifies it.
pub record SameIdentity {Value : Type 0} (a b : Task Value) : Type 0 where
  pub id : b.id ≡ a.id
  pub key : key_of b ≡ key_of a

module _ {Value : Type 0} where
  pub put_task-IsConsistent :
      (table : TaskTable Value) (id : String) (task task' : Task Value)
      → get_task table id ≡ some task
      → SameIdentity task task'
      → IsConsistent table
      → IsConsistent (put_task table id task')
  put_task-IsConsistent table id task task' at s c = record {
    tasks_sorted = insert-IsSorted id task' table.tasks c.tasks_sorted;
    keys_sorted = c.keys_sorted;
    keyed = λ j u p. ground (
      arith,
      get-insert id j task' table.tasks,
      eq_iff id j,
      c.keyed j u,
      c.keyed id task at,
      s.id,
    );
    indexed = λ j u p. ground (
      arith,
      get-insert id j task' table.tasks,
      eq_iff id j,
      c.indexed j u,
      c.indexed id task at,
      s.key,
    );
    covered = λ key j p.
        let (u, held, same) = c.covered key j p in
        elim (Bool-cases (id == j)) [
          | inl e ↦ (
            task',
            ground (arith, get-insert id j task' table.tasks),
            cc ((eq_iff id j).0 e, s.key),
          )
          | inr e ↦ (u, ground (arith, get-insert id j task' table.tasks), same)
        ];
  }

  pub insert_new-IsConsistent :
      (table : TaskTable Value) (task : Task Value)
      → get_task table task.id ≡ none
      → get (key_of task) table.idempotency ≡ none
      → IsConsistent table
      → IsConsistent (record {
        tasks = insert task.id task table.tasks;
        idempotency = insert (key_of task) task.id table.idempotency;
      })
  insert_new-IsConsistent table task fresh free c = record {
    tasks_sorted = insert-IsSorted task.id task table.tasks c.tasks_sorted;
    keys_sorted = insert-IsSorted (key_of task) task.id table.idempotency c.keys_sorted;
    keyed = λ j u p.
        ground (arith, get-insert task.id j task table.tasks, eq_iff task.id j, c.keyed j u);
    indexed = λ j u p. ground (
      arith,
      get-insert task.id j task table.tasks,
      eq_iff task.id j,
      c.indexed j u,
      get-insert (key_of task) (key_of u) task.id table.idempotency,
      eq_iff (key_of task) (key_of u),
    );
    covered = λ key j p. elim (Bool-cases (key_of task == key)) [
      | inl e ↦ (
        task,
        ground (
          arith,
          get-insert task.id j task table.tasks,
          eq_iff task.id j,
          get-insert (key_of task) key task.id table.idempotency,
        ),
        (eq_iff (key_of task) key).0 e,
      )
      | inr e ↦
          let (u, held, same) =
            c.covered key j
              (ground (arith, get-insert (key_of task) key task.id table.idempotency)) in
          (u, ground (arith, get-insert task.id j task table.tasks, eq_iff task.id j), same)
    ];
  }

  pub prune_found-IsConsistent :
      (table : TaskTable Value) (id : String) (found : Option (Task Value))
      → get_task table id ≡ found
      → IsConsistent table
      → IsConsistent (prune_found table id found)
  prune_found-IsConsistent table id none at c = c
  prune_found-IsConsistent table id (some task) at c = record {
    tasks_sorted = remove-IsSorted id table.tasks c.tasks_sorted;
    keys_sorted = remove-IsSorted (key_of task) table.idempotency c.keys_sorted;
    keyed = λ j u p. ground (arith, get-remove id j table.tasks, c.keyed j u);
    indexed = λ j u p. ground (
      arith,
      get-remove id j table.tasks,
      eq_iff id j,
      c.indexed j u,
      c.indexed id task at,
      get-remove (key_of task) (key_of u) table.idempotency,
      eq_iff (key_of task) (key_of u),
    );
    covered = λ key j p.
        let (u, held, same) =
          c.covered key j (ground (arith, get-remove (key_of task) key table.idempotency)) in
        (
          u,
          ground (
            arith,
            get-remove id j table.tasks,
            eq_iff id j,
            at,
            held,
            same,
            get-remove (key_of task) key table.idempotency,
            eq_iff (key_of task) key,
          ),
          same,
        );
  }
