-- ===== src/Leases/Fences.antt =====
-- crates/machine-fabric-core/src/lease.rs: fences never fall, and each grant has a higher one than
-- every grant of its resource before, whatever was released, reaped or restored in between.
use machine_fabric.Base.{
  ℕ, ◌+◌, ◌≤◌, ◌<◌, String, ◌≡◌, refl, ap, ◌∙◌, sym, subst, Option, some, map, keep, arith, eq_iff,
  eq_refl, u64_max, Result, ok,
}
use machine_fabric.BTreeMap.{get, remove, values, get-insert, get-remove}
use machine_fabric.BTreeMap.Order.{remove-IsSorted}
use machine_fabric.Schema.{Lease, LeaseKind}
use machine_fabric.Leases.Table.{
  LeaseError, LeaseTable, or_zero, from_snapshot, snapshot, fence_snapshot, next_fence, acquire,
  validate, put_lease, change_validated, renew, handoff, or_fence, take_handoff, release,
  remove_all, expired_at, reap_expired,
}
use machine_fabric.Leases.Cases.{
  granted, taken, grant, acquire_cases, take_handoff_cases, change_validated_cases, release_cases,
}
use machine_fabric.Leases.Consistent.{
  IsConsistent, grant-IsConsistent, put_lease-IsConsistent, fewer-IsConsistent, remove_all-lookup,
  remove_all-IsSorted, from_snapshot-snapshot,
}

abbrev pub fence_of : LeaseTable → String → ℕ
fence_of table resource = or_zero (get resource table.fences)

-- One call of a method that may change the table, or a restart. A grant finds a counter that has
-- not reached the largest `u64`, as 2^64 grants of one resource would be needed for that.
pub data Step (table : LeaseTable) : LeaseTable → Type 0 where
  acquires :
      {table' : LeaseTable} (kind : LeaseKind) (resource owner : String) (ttl_ms now : ℕ)
      (id_uuid token_uuid : String)
      → fence_of table resource < u64_max
      → table' ≡ (acquire table kind resource owner ttl_ms now id_uuid token_uuid).1
      → Step table table'
  takes :
      {table' : LeaseTable} (resource target : String) (ttl_ms now : ℕ) (token_uuid : String)
      → fence_of table resource < u64_max
      → table' ≡ (take_handoff table resource target ttl_ms now token_uuid).1
      → Step table table'
  renews :
      {table' : LeaseTable} (resource owner token : String) (ttl_ms checked now : ℕ)
      (answer : Result LeaseError Lease)
      → renew table resource owner token ttl_ms checked now ≡ some (answer, table')
      → Step table table'
  handoffs :
      {table' : LeaseTable} (resource owner token target : String) (checked now : ℕ)
      (answer : Result LeaseError Lease)
      → handoff table resource owner token target checked now ≡ some (answer, table')
      → Step table table'
  releases :
      {table' : LeaseTable} (resource owner token : String) (now : ℕ)
      → table' ≡ (release table resource owner token now).1
      → Step table table'
  reaps : {table' : LeaseTable} (now : ℕ) → table' ≡ (reap_expired table now).1 → Step table table'
  restarts :
      {table' : LeaseTable}
      → table' ≡ from_snapshot (snapshot table) (fence_snapshot table)
      → Step table table'

pub data Reach (table : LeaseTable) : LeaseTable → Type 0 where
  here : Reach table table
  next :
      {table' table'' : LeaseTable} → Reach table table' → Step table' table'' → Reach table table''

-- What each step keeps: consistency, and that no counter falls.
pub record Keeps (table table' : LeaseTable) : Type 0 where
  pub consistent : IsConsistent table'
  pub rising : (r : String) → fence_of table r ≤ fence_of table' r

Keeps-refl : (table : LeaseTable) → IsConsistent table → Keeps table table
Keeps-refl table c = record { consistent = c; rising = λ r. omega arith }

next_fence-eq : (f : ℕ) → f < u64_max → next_fence f ≡ f + 1
unfolding next_fence
next_fence-eq f h = omega arith

grant-Keeps :
    (table : LeaseTable) (resource : String) (lease : Lease)
    → lease.resource ≡ resource
    → fence_of table resource ≤ lease.fence
    → IsConsistent table
    → Keeps table (grant table resource lease)
grant-Keeps table resource lease same up c = record {
  consistent = grant-IsConsistent table resource lease same c;
  rising = λ r. ground (arith, get-insert resource r lease.fence table.fences, eq_iff resource r);
}

put_lease-Keeps :
    (table : LeaseTable) (resource : String) (lease lease' : Lease)
    → get resource table.leases ≡ some lease
    → lease'.resource ≡ lease.resource
    → lease'.fence ≡ lease.fence
    → IsConsistent table
    → Keeps table (put_lease table resource lease')
put_lease-Keeps table resource lease lease' e same fence c = record {
  consistent = put_lease-IsConsistent table resource lease lease' e same fence c;
  rising = λ r. omega arith;
}

-- With the counter of the resource in the map, `take_handoff` starts from that counter.
or_fence-eq :
    (table : LeaseTable) (resource : String) (lease : Lease)
    → get resource table.leases ≡ some lease
    → IsConsistent table
    → or_fence (get resource table.fences) lease.fence ≡ fence_of table resource
or_fence-eq table resource lease e c = let (f, held, le) = c.fenced resource lease e in rw held

some-pair_second :
    {A B : Type 0} {a a' : A} {b b' : B}
    → ◌≡◌ {A = Option (A × B)} (some (a, b)) (some (a', b'))
    → b ≡ b'
some-pair_second h = cc

change-Keeps :
    (table table' : LeaseTable) (resource owner token : String) (now : ℕ) (f : Lease → Lease)
    (answer : Result LeaseError Lease)
    → ((l : Lease) → ((f l).resource ≡ l.resource) × ((f l).fence ≡ l.fence))
    → change_validated table resource (validate table resource owner token now) f
      ≡ some (answer, table')
    → IsConsistent table
    → Keeps table table'
change-Keeps table table' resource owner token now f answer same h c =
    change_validated_cases (λ r. r ≡ some (answer, table') → Keeps table table') table resource
      owner token now f (λ e q. subst (Keeps table) (some-pair_second q) (Keeps-refl table c))
      (λ l e _ _ _ q.
        subst (Keeps table) (some-pair_second q)
          (put_lease-Keeps table resource l (f l) e (same l).0 (same l).1 c))
      h

-- Every step on a consistent table keeps it consistent and lets no fence counter fall; a step grants
-- only while the counter is below the largest `u64`.
pub Step-Keeps :
    {table table' : LeaseTable} → Step table table' → IsConsistent table → Keeps table table'
unfolding renew handoff reap_expired
Step-Keeps {table} (acquires kind resource owner ttl_ms now id_uuid token_uuid room q) c = rw q (
    acquire_cases (λ r. Keeps table r.1) table kind resource owner ttl_ms now id_uuid token_uuid
      (λ _ _. Keeps-refl table c)
      (λ _.
        grant-Keeps table resource _ refl
          (omega (arith, next_fence-eq (fence_of table resource) room)) c))
Step-Keeps {table} (takes resource target ttl_ms now token_uuid room q) c = rw q (
    take_handoff_cases (λ r. Keeps table r.1) table resource target ttl_ms now token_uuid
      (λ _. Keeps-refl table c) (λ _ _ _. Keeps-refl table c)
      (λ l e _.
        grant-Keeps table resource _ (c.keyed resource l e)
          (rw (or_fence-eq table resource l e c)
            (omega (arith, next_fence-eq (fence_of table resource) room)))
          c))
Step-Keeps {table} (renews {table'} resource owner token ttl_ms checked now answer q) c =
    change-Keeps table table' resource owner token checked _ answer (λ l. (refl, refl)) q c
Step-Keeps {table} (handoffs {table'} resource owner token target checked now answer q) c =
    change-Keeps table table' resource owner token checked _ answer (λ l. (refl, refl)) q c
Step-Keeps {table} (releases resource owner token now q) c = rw q (
    release_cases (λ r. Keeps table r.1) table resource owner token now (λ _. Keeps-refl table c)
      (λ l e _ _ _. record {
        consistent =
            fewer-IsConsistent table (remove resource table.leases)
              (remove-IsSorted resource table.leases c.leases_sorted)
              (λ r x h. ground (arith, get-remove resource r table.leases)) c;
        rising = λ r. omega arith;
      }))
Step-Keeps {table} (reaps now q) c =
    let resources = map (λ lease. lease.resource) (keep (expired_at now) (values table.leases)) in
    rw (q, reap_expired)
      (record {
        consistent =
            fewer-IsConsistent table (remove_all table.leases resources).1
              (remove_all-IsSorted table.leases resources c.leases_sorted)
              (λ r x h. ground (arith, remove_all-lookup table.leases resources r)) c;
        rising = λ r. omega arith;
      })
Step-Keeps {table} (restarts q) c = rw (q, from_snapshot-snapshot table c) (Keeps-refl table c)

Reach-Keeps :
    {table table' : LeaseTable} → Reach table table' → IsConsistent table → Keeps table table'
Reach-Keeps {table} here c = Keeps-refl table c
Reach-Keeps (next r s) c =
    let k = Reach-Keeps r c in
    let k' = Step-Keeps s k.consistent in
    record { consistent = k'.consistent; rising = λ r'. omega (arith, k.rising r', k'.rising r') }

-- A grant of the resource: an `acquire` or a `take_handoff` that returns a lease.
pub data Grants (table : LeaseTable) (resource : String) (lease : Lease) : LeaseTable → Type 0 where
  by_acquire :
      {table' : LeaseTable} (kind : LeaseKind) (owner : String) (ttl_ms now : ℕ)
      (id_uuid token_uuid : String)
      → fence_of table resource < u64_max
      → acquire table kind resource owner ttl_ms now id_uuid token_uuid ≡ (ok lease, table')
      → Grants table resource lease table'
  by_take :
      {table' : LeaseTable} (target : String) (ttl_ms now : ℕ) (token_uuid : String)
      → fence_of table resource < u64_max
      → take_handoff table resource target ttl_ms now token_uuid ≡ (ok lease, table')
      → Grants table resource lease table'

-- What a grant says of the fence.
abbrev Fences : LeaseTable → String → Lease → LeaseTable → Type 0
Fences table resource lease table' =
    IsConsistent table'
    × (lease.fence ≡ fence_of table resource + 1)
    × (fence_of table' resource ≡ lease.fence)

grant-Fences :
    (table table' : LeaseTable) (resource : String) (lease given : Lease)
    → given.resource ≡ resource
    → given.fence ≡ fence_of table resource + 1
    → ◌≡◌ {A = Result LeaseError Lease × LeaseTable}
        (ok given, grant table resource given)
        (ok lease, table')
    → IsConsistent table
    → Fences table resource lease table'
grant-Fences table table' resource lease given same up q c =
    let p : given ≡ lease = cc in
    let t : grant table resource given ≡ table' = cc in
    (
      subst IsConsistent t (grant-IsConsistent table resource given same c),
      ap (λ (x : Lease). x.fence) (sym p) ∙ up,
      ap (λ x. fence_of x resource) (sym t)
          ∙ ap or_zero (get-insert resource resource given.fence table.fences)
          ∙ rw (eq_refl resource) (ap (λ (x : Lease). x.fence) p),
    )

Grants-Fences :
    {table table' : LeaseTable} (resource : String) (lease : Lease)
    → Grants table resource lease table'
    → IsConsistent table
    → Fences table resource lease table'
Grants-Fences {table} {table'} resource lease
      (by_acquire kind owner ttl_ms now id_uuid token_uuid room q) c =
    acquire_cases (λ r. r ≡ (ok lease, table') → Fences table resource lease table') table kind
      resource owner ttl_ms now id_uuid token_uuid (λ _ _ h. absurd (cc h))
      (λ _ h.
        grant-Fences table table' resource lease
          (granted table kind resource owner ttl_ms now id_uuid token_uuid) refl
          (next_fence-eq (fence_of table resource) room) h c)
      q
Grants-Fences {table} {table'} resource lease (by_take target ttl_ms now token_uuid room q) c =
    take_handoff_cases (λ r. r ≡ (ok lease, table') → Fences table resource lease table') table
      resource target ttl_ms now token_uuid (λ _ h. absurd (cc h)) (λ _ _ _ h. absurd (cc h))
      (λ l e _ h.
        grant-Fences table table' resource lease
          (taken table l resource target ttl_ms now token_uuid) (c.keyed resource l e)
          (ap next_fence (or_fence-eq table resource l e c)
            ∙ next_fence-eq (fence_of table resource) room)
          h c)
      q

-- Of two grants of one resource, the first on a consistent table, the later has the higher fence,
-- whatever calls and restarts lie between them, as long as no grant is made when its resource's
-- counter has reached the largest `u64`.
pub fencing :
    (t₁ t₂ t₃ t₄ : LeaseTable) (resource : String) (first second : Lease)
    → IsConsistent t₁
    → Grants t₁ resource first t₂
    → Reach t₂ t₃
    → Grants t₃ resource second t₄
    → first.fence < second.fence
fencing t₁ t₂ t₃ t₄ resource first second c g r g' =
    let (c₂, _, at) = Grants-Fences resource first g c in
    let k = Reach-Keeps r c₂ in
    let (_, up, _) = Grants-Fences resource second g' k.consistent in
    omega (arith, k.rising resource)
