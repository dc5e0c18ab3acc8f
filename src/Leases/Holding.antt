-- ===== src/Leases/Holding.antt =====
-- crates/machine-fabric-core/src/lease.rs: who holds a resource, who is refused, what a handoff does.
use mathlib.Core.Option.{some-injective}
use machine_fabric.Base.{
  ℕ, ◌≤◌, ◌<◌, String, ◌≡◌, ◌≢◌, ◌↔◌, refl, ap, ◌∙◌, sym, subst, ◌⊎◌, inl, inr, Option, none, some,
  map, keep, arith, eq_iff, eq_refl, if◌then◌else◌, saturating_add, Result, ok, err,
}
use machine_fabric.BTreeMap.{get, values, get-insert}
use machine_fabric.BTreeMap.Select.{selected, listed-selected}
use machine_fabric.Schema.{Lease, LeaseKind}
use machine_fabric.Tasks.Table.{◌⊕◌}
use machine_fabric.Leases.Table.{
  LeaseError, active, invalid_handoff, LeaseTable, barred, acquire, check, validate, put_lease,
  change_validated, renew, handoff, offered, take_handoff, expired_at, reap_expired,
}
use machine_fabric.Leases.Cases.{
  granted, taken, grant, acquire_cases, take_handoff_cases, validate_cases, change_validated_cases,
}
use machine_fabric.Leases.Consistent.{IsConsistent, remove_all-lookup}

-- The table has a lease of the resource that has not expired.
abbrev pub Held : LeaseTable → String → ℕ → Lease → Type 0
Held table resource now lease = (get resource table.leases ≡ some lease) × (now < lease.expires_at)

validate-Held :
    (table : LeaseTable) (resource owner token : String) (now : ℕ) (lease : Lease)
    → Held table resource now lease
    → lease.owner ≡ owner
    → lease.token ≡ token
    → validate table resource owner token now ≡ ok lease
unfolding validate check
validate-Held table resource owner token now lease h o t =
    rw h.0 (ground (arith, eq_iff lease.owner owner, eq_iff lease.token token))

-- `validate` returns a lease exactly when the table has it live for that owner and that token.
pub validate_iff :
    (table : LeaseTable) (resource owner token : String) (now : ℕ) (lease : Lease)
    → (validate table resource owner token now ≡ ok lease)
      ↔ (Held table resource now lease × (lease.owner ≡ owner) × (lease.token ≡ token))
validate_iff table resource owner token now lease = (
  validate_cases
      (λ r.
        r ≡ ok lease
        → Held table resource now lease × (lease.owner ≡ owner) × (lease.token ≡ token))
      table resource owner token now (λ e h. absurd (cc h))
      (λ l e live o t h.
        let q : l ≡ lease = cc in
        subst (λ x. Held table resource now x × (x.owner ≡ owner) × (x.token ≡ token)) q
          ((e, live), o, t)),
  λ h. validate-Held table resource owner token now lease h.0 h.1 h.2,
)

-- Refused: a live lease bars the resource, and is named; the table is as it was.
abbrev pub Refused : LeaseTable → String → ℕ → Result LeaseError Lease × LeaseTable → Type 0
Refused table resource now answer =
    (lease : Lease) × Held table resource now lease
    × (answer ≡ (err (active lease.owner lease.expires_at), table))

-- Granted: no lease of the resource was live; the new one is in the table, and valid till it ends.
abbrev pub Granted :
    LeaseTable → String → String → ℕ → ℕ → Result LeaseError Lease × LeaseTable → Type 0
Granted table resource owner ttl_ms now answer =
    (lease : Lease) × ((other : Lease) → ¬ Held table resource now other)
    × (answer.0 ≡ ok lease)
    × (lease.owner ≡ owner)
    × (lease.expires_at ≡ saturating_add now ttl_ms)
    × ((later : ℕ)
        → later < lease.expires_at
        → validate answer.1 resource owner lease.token later ≡ ok lease)

barred-some :
    (table : LeaseTable) (resource : String) (now : ℕ) (e : LeaseError) (held : Option Lease)
    → get resource table.leases ≡ held
    → barred held now ≡ some e
    → Refused table resource now (err e, table)
unfolding barred
barred-some table resource now e none g h = cc
barred-some table resource now e (some l) g h =
    (l, (g, ground arith), ap (λ (x : LeaseError). (err x, table)) (ground arith))

barred-none :
    (table : LeaseTable) (resource : String) (now : ℕ) (held : Option Lease) (other : Lease)
    → get resource table.leases ≡ held
    → barred held now ≡ none
    → ¬ Held table resource now other
unfolding barred
barred-none table resource now none other g h k = cc (k.0)
barred-none table resource now (some l) other g h k =
    let q : l ≡ other = cc (k.0) in ground (arith, ap (λ (x : Lease). x.expires_at) q)

-- `acquire` is refused exactly while a lease of the resource is live: then it names that lease's
-- owner and end, and changes nothing. Otherwise it returns a lease of the caller's for the time
-- asked, which `validate` accepts on the new table until it ends.
pub acquire_excludes :
    (table : LeaseTable) (kind : LeaseKind) (resource owner : String) (ttl_ms now : ℕ)
    (id_uuid token_uuid : String)
    → let answer = acquire table kind resource owner ttl_ms now id_uuid token_uuid in
      Refused table resource now answer ⊎ Granted table resource owner ttl_ms now answer
acquire_excludes table kind resource owner ttl_ms now id_uuid token_uuid =
    let lease = granted table kind resource owner ttl_ms now id_uuid token_uuid in
    acquire_cases (λ r. Refused table resource now r ⊎ Granted table resource owner ttl_ms now r)
      table kind resource owner ttl_ms now id_uuid token_uuid
      (λ e b. inl (barred-some table resource now e (get resource table.leases) refl b))
      (λ b. inr (
        lease,
        (λ other. barred-none table resource now (get resource table.leases) other refl b),
        refl,
        refl,
        refl,
        (λ later h.
            validate-Held (grant table resource lease) resource owner lease.token later lease
              (rw (get-insert resource resource lease table.leases, eq_refl resource) refl, h) refl
              refl),
      ))

-- After a `take_handoff` that returned a lease, the writer that held the resource before is refused
-- at every time, if the new token is not its own.
pub stale_writer :
    (table : LeaseTable) (resource target owner token : String) (ttl_ms now later : ℕ)
    (token_uuid : String) (lease : Lease)
    → (take_handoff table resource target ttl_ms now token_uuid).0 ≡ ok lease
    → "token_" ⊕ token_uuid ≢ token
    → (other : Lease)
    → validate
        (take_handoff table resource target ttl_ms now token_uuid).1
        resource
        owner
        token
        later
      ≢ ok other
stale_writer table resource target owner token ttl_ms now later token_uuid lease h ne other =
    take_handoff_cases (λ r. r.0 ≡ ok lease → validate r.1 resource owner token later ≢ ok other)
      table resource target ttl_ms now token_uuid (λ _ q. absurd (cc q)) (λ _ _ _ q. absurd (cc q))
      (λ l e _ _ v.
        let new = taken table l resource target ttl_ms now token_uuid in
        let (held, _, t) =
          (validate_iff (grant table resource new) resource owner token later other).0 v in
        let at : get resource (grant table resource new).leases ≡ some new =
          rw (get-insert resource resource new table.leases, eq_refl resource) in
        let q : new ≡ other = some-injective new other (sym at ∙ held.0) in
        ne (ap (λ (x : Lease). x.token) q ∙ t))
      h

answered :
    (table : LeaseTable) (resource owner token : String) (checked : ℕ) (f : Lease → Lease)
    → (answer : Result LeaseError Lease × LeaseTable) × (change_validated table resource
          (validate table resource owner token checked)
          f
        ≡ some answer)
      × ((e : LeaseError) → answer.0 ≡ err e → answer.1 ≡ table)
answered table resource owner token checked f =
    change_validated_cases
      (λ r.
        (answer : Result LeaseError Lease × LeaseTable) × (r ≡ some answer)
        × ((e : LeaseError) → answer.0 ≡ err e → answer.1 ≡ table))
      table resource owner token checked f (λ e. ((err e, table), refl, λ _ _. refl))
      (λ l _ _ _ _. ((ok (f l), put_lease table resource (f l)), refl, λ e q. absurd (cc q)))

-- `renew` and `handoff` never reach the panic of `expect`: each has an answer, and when it is an
-- error the table is as it was.
pub change_answers :
    (table : LeaseTable) (resource owner token target : String) (ttl_ms checked now : ℕ)
    → ((answer : Result LeaseError Lease × LeaseTable) × (renew table resource owner token ttl_ms
            checked now
          ≡ some answer)
        × ((e : LeaseError) → answer.0 ≡ err e → answer.1 ≡ table))
      × ((answer : Result LeaseError Lease × LeaseTable) × (handoff table resource owner token
              target checked now
            ≡ some answer)
          × ((e : LeaseError) → answer.0 ≡ err e → answer.1 ≡ table))
unfolding renew handoff
change_answers table resource owner token target ttl_ms checked now = (
  answered table resource owner token checked
      (λ lease. record lease { updated_at = now; expires_at = saturating_add now ttl_ms }),
  answered table resource owner token checked
      (λ lease. record lease { handoff_to = some target; updated_at = now }),
)

-- The target of a pending handoff, and nobody else, can take the resource over.
abbrev pub Hands : LeaseTable → String → String → ℕ → ℕ → String → Type 0
Hands table resource target ttl_ms now token_uuid =
    ((new : Lease) × ((take_handoff table resource target ttl_ms now token_uuid).0 ≡ ok new)
      × (new.owner ≡ target)
      × (new.expires_at ≡ saturating_add now ttl_ms))
    × ((other : String)
        → other ≢ target
        → take_handoff table resource other ttl_ms now token_uuid ≡ (err invalid_handoff, table))

offered_Hands :
    (table : LeaseTable) (resource target : String) (ttl_ms now : ℕ) (token_uuid : String)
    (lease : Lease)
    → get resource table.leases ≡ some lease
    → lease.handoff_to ≡ some target
    → Hands table resource target ttl_ms now token_uuid
unfolding take_handoff offered
offered_Hands table resource target ttl_ms now token_uuid lease e to = (
  (
    taken table lease resource target ttl_ms now token_uuid,
    rw (e, take_handoff) (ground (arith, eq_refl target)),
    refl,
    refl,
  ),
  λ other ne. rw (e, take_handoff) (ground (arith, eq_iff target other)),
)

-- A holder's `handoff` to a target lets that target take the resource over, at any time, and
-- refuses every other target.
pub handoff-Hands :
    (table table' : LeaseTable) (resource owner token target : String)
    (checked now ttl_ms later : ℕ) (token_uuid : String) (lease : Lease)
    → handoff table resource owner token target checked now ≡ some (ok lease, table')
    → Hands table' resource target ttl_ms later token_uuid
unfolding handoff
handoff-Hands table table' resource owner token target checked now ttl_ms later token_uuid lease h =
    change_validated_cases
      (λ r. r ≡ some (ok lease, table') → Hands table' resource target ttl_ms later token_uuid)
      table resource owner token checked
      (λ l. record l { handoff_to = some target; updated_at = now }) (λ e q. absurd (cc q))
      (λ l e _ _ _ q.
        let new : Lease = record l { handoff_to = some target; updated_at = now } in
        let t : put_lease table resource new ≡ table' = cc q in
        subst (λ x. Hands x resource target ttl_ms later token_uuid) t
          (offered_Hands (put_lease table resource new) resource target ttl_ms later token_uuid new
            (rw (get-insert resource resource new table.leases, eq_refl resource)) refl))
      h

reap-fences : (table : LeaseTable) (now : ℕ) → (reap_expired table now).1.fences ≡ table.fences
unfolding reap_expired
reap-fences table now = refl

reap_lookup :
    (table : LeaseTable) (now : ℕ) (resource : String)
    → IsConsistent table
    → get resource (reap_expired table now).1.leases ≡ (
        if selected (expired_at now) (get resource table.leases)
        then none
        else get resource table.leases)
unfolding reap_expired
reap_lookup table now resource c =
    remove_all-lookup table.leases
      (map (λ lease. lease.resource) (keep (expired_at now) (values table.leases))) resource
    ∙ ap (λ b. if b then none else get resource table.leases)
        (listed-selected (expired_at now) (λ lease. lease.resource) table.leases resource
          c.leases_sorted c.keyed)

-- On a consistent table `reap_expired` removes each lease whose end is not after the time, keeps every
-- other lease as it is, adds none, and keeps every fence counter.
pub reap_exact :
    (table : LeaseTable) (now : ℕ) (resource : String)
    → IsConsistent table
    → ((lease : Lease)
        → get resource table.leases ≡ some lease
        → lease.expires_at ≤ now
        → get resource (reap_expired table now).1.leases ≡ none)
      × ((lease : Lease)
          → get resource table.leases ≡ some lease
          → now < lease.expires_at
          → get resource (reap_expired table now).1.leases ≡ some lease)
      × (get resource table.leases ≡ none → get resource (reap_expired table now).1.leases ≡ none)
      × ((reap_expired table now).1.fences ≡ table.fences)
unfolding expired_at
reap_exact table now resource c =
    let reaped = reap_lookup table now resource c in
    (
      (λ lease e over. reaped ∙ rw e (ground (arith, over))),
      (λ lease e live. reaped ∙ rw e (ground (arith, live))),
      (λ e. reaped ∙ rw e refl),
      reap-fences table now,
    )
