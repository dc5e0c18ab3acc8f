-- ===== src/Leases/Cases.antt =====
-- crates/machine-fabric-core/src/lease.rs: one rule for each method, with a premise for each branch.
use machine_fabric.Base.{
  ℕ, ◌<◌, String, ◌≡◌, true, false, not, ◌||◌, ◌⊎◌, inl, inr, Option, none, some, arith, eq_iff,
  ◌==◌, Bool-cases, Option-cases, leb, saturating_add, Result, ok, err,
}
use machine_fabric.BTreeMap.{get, insert, remove}
use machine_fabric.Schema.{Lease, LeaseKind}
use machine_fabric.Tasks.Table.{◌⊕◌}
use machine_fabric.Leases.Table.{
  LeaseError, not_found, owned_by_other, invalid_handoff, LeaseTable, or_zero, next_fence, barred,
  acquire, check, validate, put_lease, change_validated, offered, or_fence, take_handoff,
  release_validated, release,
}

-- The lease that `acquire` grants.
abbrev pub granted : LeaseTable → LeaseKind → String → String → ℕ → ℕ → String → String → Lease
granted table kind resource owner ttl_ms now id_uuid token_uuid = record {
  id = "lease_" ⊕ id_uuid;
  kind = kind;
  resource = resource;
  owner = owner;
  token = "token_" ⊕ token_uuid;
  fence = next_fence (or_zero (get resource table.fences));
  acquired_at = now;
  updated_at = now;
  expires_at = saturating_add now ttl_ms;
  handoff_to = none;
}

-- The lease that `take_handoff` makes of the one that it finds.
abbrev pub taken : LeaseTable → Lease → String → String → ℕ → ℕ → String → Lease
taken table lease resource target ttl_ms now token_uuid = record lease {
  owner = target;
  token = "token_" ⊕ token_uuid;
  fence = next_fence (or_fence (get resource table.fences) lease.fence);
  acquired_at = now;
  updated_at = now;
  expires_at = saturating_add now ttl_ms;
  handoff_to = none;
}

-- A new lease and its fence go in together.
abbrev pub grant : LeaseTable → String → Lease → LeaseTable
grant table resource lease = record {
  leases = insert resource lease table.leases;
  fences = insert resource lease.fence table.fences;
}

-- `check` refuses a lease, or the lease is live and its owner and token are those that are named.
check_outcome :
    (lease : Lease) (owner token : String) (now : ℕ)
    → ((e : LeaseError) × (check (some lease) owner token now ≡ err e))
      ⊎ ((now < lease.expires_at)
          × (lease.owner ≡ owner)
          × (lease.token ≡ token)
          × (check (some lease) owner token now ≡ ok lease))
unfolding check
check_outcome lease owner token now = elim (Bool-cases (leb lease.expires_at now)) [
  | inl late ↦ inl (not_found, ground arith)
  | inr live ↦ elim (Bool-cases (not (lease.owner == owner) || not (lease.token == token))) [
    | inl other ↦ inl (owned_by_other, ground arith)
    | inr same ↦ inr (
      ground arith,
      ground (arith, eq_iff lease.owner owner),
      ground (arith, eq_iff lease.token token),
      ground arith,
    )
  ]
]

module _ {ℓ} where
  pub acquire_cases :
      (P : Result LeaseError Lease × LeaseTable → Type ℓ) (table : LeaseTable) (kind : LeaseKind)
      (resource owner : String) (ttl_ms now : ℕ) (id_uuid token_uuid : String)
      → ((e : LeaseError) → barred (get resource table.leases) now ≡ some e → P (err e, table))
      → (barred (get resource table.leases) now ≡ none
          → let lease = granted table kind resource owner ttl_ms now id_uuid token_uuid in
            P (ok lease, grant table resource lease))
      → P (acquire table kind resource owner ttl_ms now id_uuid token_uuid)
  unfolding acquire
  acquire_cases P table kind resource owner ttl_ms now id_uuid token_uuid refused given =
      elim (Option-cases (barred (get resource table.leases) now)) [
        | inl e ↦ rw (e, acquire) (given e)
        | inr (x, e) ↦ rw (e, acquire) (refused x e)
      ]

  pub take_handoff_cases :
      (P : Result LeaseError Lease × LeaseTable → Type ℓ) (table : LeaseTable)
      (resource target : String) (ttl_ms now : ℕ) (token_uuid : String)
      → (get resource table.leases ≡ none → P (err not_found, table))
      → ((lease : Lease)
          → get resource table.leases ≡ some lease
          → offered lease.handoff_to target ≡ false
          → P (err invalid_handoff, table))
      → ((lease : Lease)
          → get resource table.leases ≡ some lease
          → offered lease.handoff_to target ≡ true
          → let lease' = taken table lease resource target ttl_ms now token_uuid in
            P (ok lease', grant table resource lease'))
      → P (take_handoff table resource target ttl_ms now token_uuid)
  unfolding take_handoff
  take_handoff_cases P table resource target ttl_ms now token_uuid missing refused given =
      elim (Option-cases (get resource table.leases)) [
        | inl e ↦ rw (e, take_handoff) (missing e)
        | inr (lease, e) ↦ elim (Bool-cases (offered lease.handoff_to target)) [
          | inl f ↦ rw (e, take_handoff, f) (given lease e f)
          | inr f ↦ rw (e, take_handoff, f) (refused lease e f)
        ]
      ]

  -- `validate` answers by the lease that the table has.
  pub validate_cases :
      (P : Result LeaseError Lease → Type ℓ) (table : LeaseTable) (resource owner token : String)
      (now : ℕ)
      → ((e : LeaseError) → P (err e))
      → ((lease : Lease)
          → get resource table.leases ≡ some lease
          → now < lease.expires_at
          → lease.owner ≡ owner
          → lease.token ≡ token
          → P (ok lease))
      → P (validate table resource owner token now)
  unfolding validate check
  validate_cases P table resource owner token now refused valid =
      elim (Option-cases (get resource table.leases)) [
        | inl e ↦ rw (e, check) (refused not_found)
        | inr (lease, e) ↦ rw e (elim (check_outcome lease owner token now) [
          | inl (x, q) ↦ rw q (refused x)
          | inr (live, o, t, q) ↦ rw q (valid lease e live o t)
        ])
      ]

  pub change_validated_cases :
      (P : Option (Result LeaseError Lease × LeaseTable) → Type ℓ) (table : LeaseTable)
      (resource owner token : String) (now : ℕ) (f : Lease → Lease)
      → ((e : LeaseError) → P (some (err e, table)))
      → ((lease : Lease)
          → get resource table.leases ≡ some lease
          → now < lease.expires_at
          → lease.owner ≡ owner
          → lease.token ≡ token
          → P (some (ok (f lease), put_lease table resource (f lease))))
      → P (change_validated table resource (validate table resource owner token now) f)
  unfolding change_validated
  change_validated_cases P table resource owner token now f refused valid =
      validate_cases (λ r. P (change_validated table resource r f)) table resource owner token now
        refused (λ lease e live o t. rw (e, change_validated) (valid lease e live o t))

  pub release_cases :
      (P : Result LeaseError Lease × LeaseTable → Type ℓ) (table : LeaseTable)
      (resource owner token : String) (now : ℕ)
      → ((e : LeaseError) → P (err e, table))
      → ((lease : Lease)
          → get resource table.leases ≡ some lease
          → now < lease.expires_at
          → lease.owner ≡ owner
          → lease.token ≡ token
          → P (ok lease, record table { leases = remove resource table.leases }))
      → P (release table resource owner token now)
  unfolding release
  release_cases P table resource owner token now refused valid =
      validate_cases (λ r. P (release_validated table resource r)) table resource owner token now
        refused (λ lease e live o t. rw e (valid lease e live o t))
