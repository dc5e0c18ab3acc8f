-- ===== src/Tasks/Submission.antt =====
-- crates/machine-fabric-core/src/task.rs: `submit_traced` answers, and is idempotent by scoped key.
use mathlib.Core.Option.{some-injective}
use machine_fabric.Base.{
  ℕ, String, ◌≡◌, refl, ap, ◌∙◌, sym, subst, Bool, true, false, ◌⊎◌, inl, inr, Option, none, some,
  arith, eq_refl,
}
use machine_fabric.BTreeMap.{get, insert, get-insert}
use machine_fabric.Schema.{Task, queued}
use machine_fabric.Tasks.Table.{TaskTable, ◌⊕◌, nul_text, key_of, get_task, scoped_idempotency_key}
use machine_fabric.Tasks.Lifecycle.{new_task, reuse, submit_traced}
use machine_fabric.Tasks.Cases.{submit_cases}
use machine_fabric.Tasks.Consistent.{IsConsistent}
use machine_fabric.Tasks.Key.{scoped_key_collision}

-- What a submission with a given scoped key answers: the task of that key that the table has, and
-- the table as it was, or a new queued task that is now in the table.
pub record Answers {Value : Type 0} (table : TaskTable Value) (scoped_key : String)
    (answer : Task Value × Bool) (table' : TaskTable Value) : Type 0 where
  pub key : key_of answer.0 ≡ scoped_key
  pub held : get_task table' answer.0.id ≡ some answer.0
  pub indexed : get scoped_key table'.idempotency ≡ some answer.0.id
  pub origin :
      ((answer.1 ≡ true) × (table' ≡ table))
      ⊎ ((answer.1 ≡ false) × (get scoped_key table.idempotency ≡ none) × (answer.0.state ≡ queued))

subst_some : {A : Type 0} (P : A → Type 0) {a b : A} → some a ≡ some b → P a → P b
subst_some P {a} {b} h = subst P (some-injective a b h)

module _ {Value : Type 0} (null : Value) where
  -- On a consistent table `submit_traced` never panics, and answers as `Answers` says.
  pub submit-Answers :
      (table : TaskTable Value) (session executor capability : String) (input : Value)
      (key : String) (correlation_id request_id : Option String) (now event_now : ℕ) (uuid : String)
      → IsConsistent table
      → (answer : Task Value × Bool) × (table' : TaskTable Value) × (submit_traced null table
            session executor capability input key correlation_id request_id now event_now uuid
          ≡ some (answer, table'))
        × Answers table (scoped_idempotency_key session executor capability key) answer table'
  unfolding new_task
  submit-Answers table session executor capability input key correlation_id request_id now event_now
        uuid c =
      let scoped_key = scoped_idempotency_key session executor capability key in
      let task =
        new_task null session executor capability input key correlation_id request_id now event_now
          uuid in
      submit_cases null
        (λ r.
          (answer : Task Value × Bool) × (table' : TaskTable Value) × (r ≡ some (answer, table'))
          × Answers table scoped_key answer table')
        table session executor capability input key correlation_id request_id now event_now uuid
        (λ id e.
          let (task, held, same) = c.covered scoped_key id e in
          let q = c.keyed id task held in
          (
            (task, true),
            table,
            rw (held, reuse),
            record {
              key = same;
              held = ap (λ i. get i table.tasks) q ∙ held;
              indexed = e ∙ ap some (sym q);
              origin = inl (refl, refl);
            },
          ))
        (λ free. (
          (task, false),
          record {
            tasks = insert task.id task table.tasks;
            idempotency = insert scoped_key task.id table.idempotency;
          },
          refl,
          record {
            key = refl;
            held = ground (arith, get-insert task.id task.id task table.tasks, eq_refl task.id);
            indexed = ground (
              arith,
              get-insert scoped_key scoped_key task.id table.idempotency,
              eq_refl scoped_key,
            );
            origin = inr (refl, free, refl);
          },
        ))

  reuse_answered :
      (table table' : TaskTable Value) (scoped_key : String) (answer : Task Value × Bool)
      (session executor capability : String) (input : Value) (key : String)
      (correlation_id request_id : Option String) (now event_now : ℕ) (uuid : String)
      → Answers table scoped_key answer table'
      → scoped_idempotency_key session executor capability key ≡ scoped_key
      → submit_traced null table' session executor capability input key correlation_id request_id
          now event_now uuid
        ≡ some ((answer.0, true), table')
  unfolding submit_traced
  reuse_answered table table' scoped_key answer session executor capability input key correlation_id
        request_id now event_now uuid a same =
      rw (same, submit_traced, a.indexed, a.held)

  -- After a submission to a consistent table, a submission with an equal scoped key gets that task
  -- back, marked as reused, and changes nothing, whatever its input, times and ids are.
  pub submit_twice :
      (table table' : TaskTable Value) (answer : Task Value × Bool)
      (session executor capability : String) (input : Value) (key : String)
      (correlation_id request_id : Option String) (now event_now : ℕ) (uuid : String)
      (session' executor' capability' : String) (input' : Value) (key' : String)
      (correlation_id' request_id' : Option String) (now' event_now' : ℕ) (uuid' : String)
      → IsConsistent table
      → submit_traced null table session executor capability input key correlation_id request_id now
          event_now uuid
        ≡ some (answer, table')
      → scoped_idempotency_key session' executor' capability' key'
        ≡ scoped_idempotency_key session executor capability key
      → submit_traced null table' session' executor' capability' input' key' correlation_id'
          request_id' now' event_now' uuid'
        ≡ some ((answer.0, true), table')
  submit_twice table table' answer session executor capability input key correlation_id request_id
        now event_now uuid session' executor' capability' input' key' correlation_id' request_id'
        now' event_now' uuid' c first same =
      let scoped_key = scoped_idempotency_key session executor capability key in
      let (answer₀, table₀, q, a) =
        submit-Answers table session executor capability input key correlation_id request_id now
          event_now uuid c in
      reuse_answered table table' scoped_key answer session' executor' capability' input' key'
        correlation_id' request_id' now' event_now' uuid'
        (subst_some (λ x. Answers table scoped_key x.0 x.1) (sym q ∙ first) a) same

  -- The scoped key does not tell apart a NUL inside a part from one between two parts: after a
  -- submission for the session `a NUL b`, a submission for the session `a` whose executor and
  -- capability differ is answered with the task of the first.
  pub submit_nul_collision :
      (table table' : TaskTable Value) (answer : Task Value × Bool) (a b c d key : String)
      (input input' : Value) (now event_now now' event_now' : ℕ) (uuid uuid' : String)
      → IsConsistent table
      → submit_traced null table (a ⊕ nul_text ⊕ b) c d input key none none now event_now uuid
        ≡ some (answer, table')
      → submit_traced null table' a b (c ⊕ nul_text ⊕ d) input' key none none now' event_now' uuid'
        ≡ some ((answer.0, true), table')
  submit_nul_collision table table' answer a b c d key input input' now event_now now' event_now'
        uuid uuid' w first =
      submit_twice table table' answer (a ⊕ nul_text ⊕ b) c d input key none none now event_now uuid
        a b (c ⊕ nul_text ⊕ d) input' key none none now' event_now' uuid' w first
        (sym (scoped_key_collision a b c d key))
