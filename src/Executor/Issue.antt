-- ===== src/Executor/Issue.antt =====
-- crates/machine-fabric-runtime/src/executor.rs: the fences before and after `issue_each`.
use machine_fabric.Base.{
  All-map, subst, eq_refl, ℕ, ◌≤◌, ◌<◌, String, ◌≡◌, refl, ◌⊎◌, inl, inr, Option, none, some, List,
  [], ◌∷◌, All, u64_max, arith, eq_iff, if◌then◌else◌, Bool-cases, ◌==◌,
}
use machine_fabric.BTreeMap.{BTreeMap, get, insert, get-insert}
use machine_fabric.Executor.Fences.{FenceRecord, Authority, next_fence, new_record, issue_each}

abbrev pub fence_of : Option FenceRecord → ℕ
fence_of none = 0
fence_of (some r) = r.fence

abbrev pub floor : BTreeMap FenceRecord → String → ℕ
floor table resource = fence_of (get resource table)

-- A fence is a u64.
abbrev pub Fits : BTreeMap FenceRecord → Type 0
Fits table = (resource : String) → floor table resource ≤ u64_max

-- No fence of the second table is below that of the first.
abbrev pub Below : BTreeMap FenceRecord → BTreeMap FenceRecord → Type 0
Below a b = (resource : String) → floor a resource ≤ floor b resource

floor-insert :
    (k j : String) (r : FenceRecord) (table : BTreeMap FenceRecord)
    → floor (insert k r table) j ≡ (if k == j then r.fence else floor table j)
floor-insert k j r table = ground (arith, get-insert k j r table)

next_fence-above :
    (r : Option FenceRecord)
    → fence_of r ≤ u64_max
    → (fence_of r ≤ next_fence r)
      × (next_fence r ≤ u64_max)
      × ((fence_of r < next_fence r) ⊎ (next_fence r ≡ u64_max))
next_fence-above none h = (omega arith, omega arith, inl (omega arith))
next_fence-above (some r) h = ground (arith, h)

-- An authority is above the fences of the table before, and the table after is not below it.
abbrev pub Above : BTreeMap FenceRecord → BTreeMap FenceRecord → Authority → Type 0
Above before later a =
    ((floor before a.resource < a.fence) ⊎ (a.fence ≡ u64_max)) × (a.fence ≤ floor later a.resource)

pub Above-weaken :
    (a b later : BTreeMap FenceRecord)
    → Below a b
    → (x : Authority) → Above b later x
    → Above a later x
Above-weaken a b later below x (fresh, last) =
    (elim fresh [ inl h ↦ inl (omega (arith, h, below x.resource)) | inr h ↦ inr h ], last)

-- One more fence for a resource.
raised : String → BTreeMap FenceRecord → String → BTreeMap FenceRecord
raised id table resource = insert resource (new_record id table resource) table

raised-own :
    (id : String) (table : BTreeMap FenceRecord) (resource : String)
    → floor (raised id table resource) resource ≡ next_fence (get resource table)
unfolding raised
raised-own id table resource =
    rw (floor-insert resource resource (new_record id table resource) table, eq_refl resource) refl

raised-Below :
    (id : String) (table : BTreeMap FenceRecord) (resource : String)
    → Fits table
    → Fits (raised id table resource) × Below table (raised id table resource)
unfolding raised
raised-Below id table resource fits =
    let own = next_fence-above (get resource table) (fits resource) in
    (
      λ j.
          ground
            (arith, floor-insert resource j (new_record id table resource) table, own.1, fits j),
      λ j. elim (Bool-cases (resource == j)) [
        | inl e ↦
            let same : resource ≡ j = (eq_iff resource j).0 e in
            subst (λ k. floor table k ≤ floor (raised id table resource) k) same
              (omega (arith, raised-own id table resource, own.0))
        | inr e ↦ ground (arith, floor-insert resource j (new_record id table resource) table, e)
      ],
    )

pub issue_each-Above :
    (id : String) (table : BTreeMap FenceRecord) (resources : List String)
    → Fits table
    → Fits (issue_each id table resources).1
      × Below table (issue_each id table resources).1
      × All (Above table (issue_each id table resources).1) (issue_each id table resources).0
unfolding issue_each raised
issue_each-Above id table [] fits = (fits, (λ r. omega arith), tt)
issue_each-Above id table (resource ∷ resources) fits =
    let own = next_fence-above (get resource table) (fits resource) in
    let (fits', step) = raised-Below id table resource fits in
    let (fits'', below, rest) = issue_each-Above id (raised id table resource) resources fits' in
    (
      fits'',
      λ r. omega (arith, step r, below r),
      (
        (own.2, omega (arith, raised-own id table resource, below resource)),
        All-map (Above-weaken table (raised id table resource) _ step) _ rest,
      ),
    )
