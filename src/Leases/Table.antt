-- ===== src/Leases/Table.antt =====
-- crates/machine-fabric-core/src/lease.rs: the lease table. A reading of the clock and the text of a
-- new UUID are arguments; `renew`, `handoff` read the clock once in `validate` and once after it. A
-- panic is `none`. Fences are `u64` and wrap, as a release build lets them.
use mathlib.Core.Option
use machine_fabric.Base.{
  ℕ, ◌+◌, ◌%◌, ◌^◌, max, String, Bool, false, not, ◌||◌, Option, none, some, List, [], ◌∷◌, map,
  ◌==◌, ltb, leb, keep, saturating_add, if◌then◌else◌, Result, ok, err,
}
use machine_fabric.BTreeMap.{BTreeMap, get, insert, remove, values}
use machine_fabric.Schema.{Lease, LeaseKind}
use machine_fabric.Tasks.Table.{◌⊕◌}

pub data LeaseError : Type 0 where
  active : String → ℕ → LeaseError
  not_found owned_by_other invalid_handoff : LeaseError

pub record LeaseTable : Type 0 where
  pub leases : BTreeMap Lease
  pub fences : BTreeMap ℕ

abbrev pub or_zero : Option ℕ → ℕ
or_zero none = 0
or_zero (some n) = n

-- The loop of `from_snapshot`, which raises the fences and fills the leases.
unfoldable pub restore : List Lease → LeaseTable → LeaseTable
restore [] table = table
restore (lease ∷ leases) table = restore leases (record {
  leases = insert lease.resource lease table.leases;
  fences =
      insert lease.resource (max (or_zero (get lease.resource table.fences)) lease.fence)
        table.fences;
})

unfoldable pub from_snapshot : List Lease → BTreeMap ℕ → LeaseTable
unfolding restore
from_snapshot leases fences = restore leases (record { leases = []; fences = fences })

unfoldable pub from_leases : List Lease → LeaseTable
unfolding from_snapshot
from_leases leases = from_snapshot leases []

unfoldable pub snapshot : LeaseTable → List Lease
snapshot table = values table.leases

unfoldable pub fence_snapshot : LeaseTable → BTreeMap ℕ
fence_snapshot table = table.fences

-- `fence + 1` on a `u64`.
unfoldable pub next_fence : ℕ → ℕ
next_fence fence = (fence + 1) % 2 ^ 64

-- An active lease of somebody bars the resource.
unfoldable pub barred : Option Lease → ℕ → Option LeaseError
barred none now = none
barred (some existing) now =
    if ltb now existing.expires_at then some (active existing.owner existing.expires_at) else none

unfoldable pub acquire :
    LeaseTable
    → LeaseKind
    → String
    → String
    → ℕ
    → ℕ
    → String
    → String
    → Result LeaseError Lease × LeaseTable
unfolding barred next_fence
acquire table kind resource owner ttl_ms now id_uuid token_uuid =
    let fence = next_fence (or_zero (get resource table.fences)) in
    let lease : Lease = record {
      id = "lease_" ⊕ id_uuid;
      kind = kind;
      resource = resource;
      owner = owner;
      token = "token_" ⊕ token_uuid;
      fence = fence;
      acquired_at = now;
      updated_at = now;
      expires_at = saturating_add now ttl_ms;
      handoff_to = none;
    } in
    elim (barred (get resource table.leases) now) [
      | some e ↦ (err e, table)
      | none ↦ (
        ok lease,
        record {
          leases = insert resource lease table.leases;
          fences = insert resource fence table.fences;
        },
      )
    ]

-- The checks of `validate` on the lease that the table has for the resource.
unfoldable pub check : Option Lease → String → String → ℕ → Result LeaseError Lease
check none owner token now = err not_found
check (some lease) owner token now =
    if leb lease.expires_at now
    then err not_found
    else if not (lease.owner == owner) || not (lease.token == token)
    then err owned_by_other
    else ok lease

unfoldable pub validate : LeaseTable → String → String → String → ℕ → Result LeaseError Lease
validate table resource owner token now = check (get resource table.leases) owner token now

abbrev pub put_lease : LeaseTable → String → Lease → LeaseTable
put_lease table resource lease = record table { leases = insert resource lease table.leases }

-- `self.validate(..)?`, then a change of the lease behind `get_mut(..).expect(..)`.
unfoldable pub change_validated :
    LeaseTable
    → String
    → Result LeaseError Lease
    → (Lease → Lease)
    → Option (Result LeaseError Lease × LeaseTable)
change_validated table resource (err e) f = some (err e, table)
change_validated table resource (ok _) f =
    Option.map (λ lease. (ok (f lease), put_lease table resource (f lease)))
      (get resource table.leases)

unfoldable pub renew :
    LeaseTable
    → String
    → String
    → String
    → ℕ
    → ℕ
    → ℕ
    → Option (Result LeaseError Lease × LeaseTable)
unfolding change_validated validate
renew table resource owner token ttl_ms checked now =
    change_validated table resource (validate table resource owner token checked)
      (λ lease. record lease { updated_at = now; expires_at = saturating_add now ttl_ms })

unfoldable pub handoff :
    LeaseTable
    → String
    → String
    → String
    → String
    → ℕ
    → ℕ
    → Option (Result LeaseError Lease × LeaseTable)
unfolding change_validated validate
handoff table resource owner token target checked now =
    change_validated table resource (validate table resource owner token checked)
      (λ lease. record lease { handoff_to = some target; updated_at = now })

unfoldable pub offered : Option String → String → Bool
offered none target = false
offered (some t) target = t == target

abbrev pub or_fence : Option ℕ → ℕ → ℕ
or_fence none n = n
or_fence (some f) n = f

unfoldable pub take_handoff :
    LeaseTable → String → String → ℕ → ℕ → String → Result LeaseError Lease × LeaseTable
unfolding offered next_fence
take_handoff table resource target ttl_ms now token_uuid = elim (get resource table.leases) [
  | none ↦ (err not_found, table)
  | some lease ↦
      let fence = next_fence (or_fence (get resource table.fences) lease.fence) in
      let lease' : Lease = record lease {
        owner = target;
        token = "token_" ⊕ token_uuid;
        fence = fence;
        acquired_at = now;
        updated_at = now;
        expires_at = saturating_add now ttl_ms;
        handoff_to = none;
      } in
      if not (offered lease.handoff_to target) then (err invalid_handoff, table) else (
        ok lease',
        record {
          leases = insert resource lease' table.leases;
          fences = insert resource fence table.fences;
        },
      )
]

abbrev pub take_out : LeaseTable → String → Option Lease → Result LeaseError Lease × LeaseTable
take_out table resource none = (err not_found, table)
take_out table resource (some lease) =
    (ok lease, record table { leases = remove resource table.leases })

-- What follows `self.validate(..)?` in `release`.
abbrev pub release_validated :
    LeaseTable → String → Result LeaseError Lease → Result LeaseError Lease × LeaseTable
release_validated table resource (err e) = (err e, table)
release_validated table resource (ok _) = take_out table resource (get resource table.leases)

unfoldable pub release :
    LeaseTable → String → String → String → ℕ → Result LeaseError Lease × LeaseTable
unfolding validate
release table resource owner token now =
    release_validated table resource (validate table resource owner token now)

-- `filter_map(|resource| self.leases.remove(&resource))`.
unfoldable pub remove_all : BTreeMap Lease → List String → List Lease × BTreeMap Lease
remove_all leases [] = ([], leases)
remove_all leases (resource ∷ resources) =
    let (removed, leases') = remove_all (remove resource leases) resources in
    (elim (get resource leases) [ none ↦ removed | some lease ↦ lease ∷ removed ], leases')

unfoldable pub expired_at : ℕ → Lease → Bool
expired_at now lease = leb lease.expires_at now

unfoldable pub reap_expired : LeaseTable → ℕ → List Lease × LeaseTable
unfolding remove_all expired_at
reap_expired table now =
    let (reaped, leases) =
      remove_all table.leases
        (map (λ lease. lease.resource) (keep (expired_at now) (values table.leases))) in
    (reaped, record table { leases = leases })
