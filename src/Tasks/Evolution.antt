-- ===== src/Tasks/Evolution.antt =====
-- crates/machine-fabric-core/src/task.rs: how one task may change under the methods of the table.
use mathlib.Core.List.{append-nil}
use machine_fabric.Base.{
  ℕ, ◌+◌, ◌≤◌, String, ◌≡◌, refl, sym, subst, true, false, inl, inr, Option, none, some, List, [],
  ◌∷◌, ◌++◌, arith, eq_iff, ◌==◌, Bool-cases, u64_max, length,
}
use machine_fabric.BTreeMap.{insert, get-insert}
use machine_fabric.Schema.{
  Task, TaskState, queued, outcome_unknown, TaskEvent, TaskPayloadRef, TaskError as TaskFailure,
}
use machine_fabric.Tasks.Table.{TaskTable, get_task, put_task, allowed, retryable, in_flight}
use machine_fabric.Tasks.Lifecycle.{move_to, requeue, orphan}
use machine_fabric.Tasks.Consistent.{SameIdentity}

-- The edges of the state machine: those of `transition`, of `retry` and of the recovery.
pub data Edge : TaskState → TaskState → Type 0 where
  stay : {s : TaskState} → Edge s s
  moves : {s t : TaskState} → allowed s t ≡ true → Edge s t
  retries : {s t : TaskState} → retryable s ≡ true → t ≡ queued → Edge s t
  orphans : {s t : TaskState} → in_flight s ≡ true → t ≡ outcome_unknown → Edge s t

-- Consecutive sequence numbers, from the given one on.
abbrev pub IsNumbered : {Value : Type 0} → ℕ → List (TaskEvent Value) → Type 0
IsNumbered k [] = Unit
IsNumbered k (e ∷ es) = (e.sequence ≡ k) × IsNumbered (k + 1) es

IsNumbered-append :
    {Value : Type 0} (k : ℕ) (es : List (TaskEvent Value)) (e : TaskEvent Value)
    → IsNumbered k es
    → e.sequence ≡ k + length es
    → IsNumbered k (es ++ e ∷ [])
IsNumbered-append k [] e n h = (omega arith, tt)
IsNumbered-append k (x ∷ es) e n h = (n.0, IsNumbered-append (k + 1) es e n.1 (omega arith))

-- What every method keeps of a task: who it is, when it was created, the events so far; and the
-- revision does not fall.
pub record Evolves {Value : Type 0} (a b : Task Value) : Type 0 where
  pub same : SameIdentity a b
  pub created : b.created_at ≡ a.created_at
  pub revised : a.revision ≤ u64_max → (a.revision ≤ b.revision) × (b.revision ≤ u64_max)
  pub edge : Edge a.state b.state
  pub logged : (more : List (TaskEvent Value)) × (b.events ≡ a.events ++ more)
  pub numbered : IsNumbered 1 a.events → IsNumbered 1 b.events

module _ {Value : Type 0} where
  pub Evolves-refl : (a : Task Value) → Evolves a a
  Evolves-refl a = record {
    same = record { id = refl; key = refl };
    created = refl;
    revised = λ h. (omega arith, h);
    edge = stay;
    logged = ([], sym (append-nil a.events));
    numbered = λ n. n;
  }

  pub set_input-Evolves :
      (a : Task Value) (input : Value) (reference : Option TaskPayloadRef)
      → Evolves a (record a { input = input; input_ref = reference })
  set_input-Evolves a input reference = record {
    same = record { id = refl; key = refl };
    created = refl;
    revised = λ h. (omega arith, h);
    edge = stay;
    logged = ([], sym (append-nil a.events));
    numbered = λ n. n;
  }

  pub set_output-Evolves :
      (a : Task Value) (output : Option Value) (reference : Option TaskPayloadRef)
      → Evolves a (record a { output = output; output_ref = reference })
  set_output-Evolves a output reference = record {
    same = record { id = refl; key = refl };
    created = refl;
    revised = λ h. (omega arith, h);
    edge = stay;
    logged = ([], sym (append-nil a.events));
    numbered = λ n. n;
  }

  pub move_to-Evolves :
      (null : Value) (a : Task Value) (state : TaskState) (output : Option Value)
      (error : Option (TaskFailure Value)) (now event_now : ℕ)
      → allowed a.state state ≡ true
      → Evolves a (move_to null a state output error now event_now)
  unfolding move_to
  move_to-Evolves null a state output error now event_now h = record {
    same = record { id = refl; key = refl };
    created = refl;
    revised = λ k. (omega arith, omega arith);
    edge = moves h;
    logged = (_, refl);
    numbered = λ n. IsNumbered-append 1 a.events _ n (omega arith);
  }

  pub requeue-Evolves :
      (null : Value) (a : Task Value) (now event_now : ℕ)
      → retryable a.state ≡ true
      → Evolves a (requeue null a now event_now)
  unfolding requeue
  requeue-Evolves null a now event_now h = record {
    same = record { id = refl; key = refl };
    created = refl;
    revised = λ k. (omega arith, omega arith);
    edge = retries h refl;
    logged = (_, refl);
    numbered = λ n. IsNumbered-append 1 a.events _ n (omega arith);
  }

  -- With a new input, as `retry_with_input` gives it.
  pub requeue-input-Evolves :
      (null : Value) (a : Task Value) (input : Value) (now event_now : ℕ)
      → retryable a.state ≡ true
      → Evolves a (record (requeue null a now event_now) { input = input; input_ref = none })
  unfolding requeue
  requeue-input-Evolves null a input now event_now h = record {
    same = record { id = refl; key = refl };
    created = refl;
    revised = λ k. (omega arith, omega arith);
    edge = retries h refl;
    logged = (_, refl);
    numbered = λ n. IsNumbered-append 1 a.events _ n (omega arith);
  }

  pub orphan-Evolves :
      (null : Value) (a : Task Value) (now event_now : ℕ)
      → in_flight a.state ≡ true
      → Evolves a (orphan null a now event_now)
  unfolding orphan
  orphan-Evolves null a now event_now h = record {
    same = record { id = refl; key = refl };
    created = refl;
    revised = λ k. (omega arith, omega arith);
    edge = orphans h refl;
    logged = (_, refl);
    numbered = λ n. IsNumbered-append 1 a.events _ n (omega arith);
  }

-- What `recover_orphans` makes of one task.
pub record Recovers {Value : Type 0} (a b : Task Value) : Type 0 where
  pub evolves : Evolves a b
  pub settled : in_flight a.state ≡ false → b ≡ a
  pub unknown : in_flight a.state ≡ true → b.state ≡ outcome_unknown

-- A table seen after a change: each of its tasks is gone or has evolved.
pub data Later {Value : Type 0} (table : TaskTable Value) (id : String) (a : Task Value)
    : Type 0 where
  gone : get_task table id ≡ none → Later table id a
  kept : (b : Task Value) → get_task table id ≡ some b → Evolves a b → Later table id a

-- The same where the task is there still.
pub record Stays {Value : Type 0} (table : TaskTable Value) (id : String) (a : Task Value)
    : Type 0 where
  pub later : Task Value
  pub found : get_task table id ≡ some later
  pub evolves : Evolves a later

module _ {Value : Type 0} where
  pub stays :
      {table : TaskTable Value} {id : String} {a : Task Value} (b : Task Value)
      → get_task table id ≡ some b
      → Evolves a b
      → Stays table id a
  stays b e ev = record { later = b; found = e; evolves = ev }

  pub put_task-Stays :
      (table : TaskTable Value) (id j : String) (task task' c : Task Value)
      → get_task table id ≡ some task
      → Evolves task task'
      → get_task table j ≡ some c
      → Stays (put_task table id task') j c
  put_task-Stays table id j task task' c at ev held = elim (Bool-cases (id == j)) [
    | inl e ↦
        let q : task ≡ c = cc ((eq_iff id j).0 e) in
        stays task' (ground (arith, get-insert id j task' table.tasks))
          (subst (λ x. Evolves x task') q ev)
    | inr e ↦ stays c (ground (arith, get-insert id j task' table.tasks)) (Evolves-refl c)
  ]

  -- Two writes at one id, as `retry_with_input` makes them.
  pub put_twice-Stays :
      (table : TaskTable Value) (id j : String) (task middle task' c : Task Value)
      → get_task table id ≡ some task
      → Evolves task task'
      → get_task table j ≡ some c
      → Stays (put_task (put_task table id middle) id task') j c
  put_twice-Stays table id j task middle task' c at ev held =
      let first = get-insert id j middle table.tasks in
      let second = get-insert id j task' (insert id middle table.tasks) in
      elim (Bool-cases (id == j)) [
        | inl e ↦
            let q : task ≡ c = cc ((eq_iff id j).0 e) in
            stays task' (ground (arith, second)) (subst (λ x. Evolves x task') q ev)
        | inr e ↦ stays c (ground (arith, first, second)) (Evolves-refl c)
      ]
