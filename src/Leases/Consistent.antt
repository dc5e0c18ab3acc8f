-- ===== src/Leases/Consistent.antt =====
-- crates/machine-fabric-core/src/lease.rs: the two maps of a lease table agree, and a snapshot restores it.
use machine_fabric.Base.{
  ℕ, ◌≤◌, max, String, ◌≡◌, refl, ap, ◌∙◌, sym, inl, inr, Option, none, some, List, [], ◌∷◌, arith,
  eq_iff, ◌==◌, if◌then◌else◌, Bool-cases,
}
use machine_fabric.BTreeMap.{BTreeMap, get, insert, remove, values, get-insert, get-remove}
use machine_fabric.BTreeMap.Order.{
  Above-IsSorted, IsSorted, IsSorted-ext, insert-IsSorted, remove-IsSorted, get-Above,
}
use machine_fabric.BTreeMap.Select.{listed, get-tail_some, get-first}
use machine_fabric.Schema.{Lease}
use machine_fabric.Leases.Table.{
  LeaseTable, or_zero, restore, from_snapshot, snapshot, fence_snapshot, put_lease, remove_all,
}
use machine_fabric.Leases.Cases.{grant}

-- Every lease stands under its own resource, whose fence counter is not below the lease's fence.
pub record IsConsistent (table : LeaseTable) : Type 0 where
  pub leases_sorted : IsSorted table.leases
  pub fences_sorted : IsSorted table.fences
  pub keyed : (r : String) (l : Lease) → get r table.leases ≡ some l → l.resource ≡ r
  pub fenced :
      (r : String) (l : Lease)
      → get r table.leases ≡ some l
      → (f : ℕ) × (get r table.fences ≡ some f) × (l.fence ≤ f)

pub grant-IsConsistent :
    (table : LeaseTable) (resource : String) (lease : Lease)
    → lease.resource ≡ resource
    → IsConsistent table
    → IsConsistent (grant table resource lease)
grant-IsConsistent table resource lease same c = record {
  leases_sorted = insert-IsSorted resource lease table.leases c.leases_sorted;
  fences_sorted = insert-IsSorted resource lease.fence table.fences c.fences_sorted;
  keyed = λ r l h.
      ground (arith, get-insert resource r lease table.leases, eq_iff resource r, c.keyed r l);
  fenced = λ r l h.
      let at = get-insert resource r lease table.leases in
      let fence = get-insert resource r lease.fence table.fences in
      elim (Bool-cases (resource == r)) [
        | inl e ↦
            let q : lease ≡ l = ground arith in
            (lease.fence, ground arith, omega (arith, ap (λ (x : Lease). x.fence) q))
        | inr e ↦ let (f, held, le) = c.fenced r l (ground arith) in (f, ground arith, le)
      ];
}

pub put_lease-IsConsistent :
    (table : LeaseTable) (resource : String) (lease lease' : Lease)
    → get resource table.leases ≡ some lease
    → lease'.resource ≡ lease.resource
    → lease'.fence ≡ lease.fence
    → IsConsistent table
    → IsConsistent (put_lease table resource lease')
put_lease-IsConsistent table resource lease lease' e same fence c = record {
  leases_sorted = insert-IsSorted resource lease' table.leases c.leases_sorted;
  fences_sorted = c.fences_sorted;
  keyed = λ r l h. ground (
    arith,
    get-insert resource r lease' table.leases,
    eq_iff resource r,
    c.keyed r l,
    c.keyed resource lease e,
    same,
  );
  fenced = λ r l h.
      let at = get-insert resource r lease' table.leases in
      elim (Bool-cases (resource == r)) [
        | inl q ↦
            let (f, held, le) = c.fenced resource lease e in
            let p : lease' ≡ l = ground arith in
            (f, cc ((eq_iff resource r).0 q), omega (arith, ap (λ (x : Lease). x.fence) p))
        | inr q ↦ c.fenced r l (ground arith)
      ];
}

-- A table whose leases are some of those of a consistent table.
pub fewer-IsConsistent :
    (table : LeaseTable) (leases : BTreeMap Lease)
    → IsSorted leases
    → ((r : String) (l : Lease) → get r leases ≡ some l → get r table.leases ≡ some l)
    → IsConsistent table
    → IsConsistent (record table { leases = leases })
fewer-IsConsistent table leases s sub c = record {
  leases_sorted = s;
  fences_sorted = c.fences_sorted;
  keyed = λ r l h. c.keyed r l (sub r l h);
  fenced = λ r l h. c.fenced r l (sub r l h);
}

pub remove_all-lookup :
    (leases : BTreeMap Lease) (resources : List String) (r : String)
    → get r (remove_all leases resources).1 ≡ (if listed r resources then none else get r leases)
unfolding remove_all
remove_all-lookup leases [] r = refl
remove_all-lookup leases (x ∷ xs) r =
    ground (arith, get-remove x r leases, remove_all-lookup (remove x leases) xs r)

pub remove_all-IsSorted :
    (leases : BTreeMap Lease) (resources : List String)
    → IsSorted leases
    → IsSorted (remove_all leases resources).1
unfolding remove_all
remove_all-IsSorted leases [] s = s
remove_all-IsSorted leases (x ∷ xs) s =
    remove_all-IsSorted (remove x leases) xs (remove-IsSorted x leases s)

-- The leases as `restore` finds them: in order, with fences that the counters bound.
abbrev Fits : BTreeMap Lease → BTreeMap ℕ → Type 0
Fits m fences =
    (r : String) (l : Lease)
    → get r m ≡ some l
    → (l.resource ≡ r) × ((f : ℕ) × (get r fences ≡ some f) × (l.fence ≤ f))

abbrev or_else : Option Lease → Option Lease → Option Lease
or_else none b = b
or_else (some a) b = some a

abbrev raised : LeaseTable → Lease → LeaseTable
raised table lease = record {
  leases = insert lease.resource lease table.leases;
  fences =
      insert lease.resource (max (or_zero (get lease.resource table.fences)) lease.fence)
        table.fences;
}

-- A lease that fits raises no counter.
raised-fences :
    (acc : LeaseTable) (i : String) (v : Lease) (k : String)
    → v.resource ≡ i
    → ((f : ℕ) × (get i acc.fences ≡ some f) × (v.fence ≤ f))
    → get k (raised acc v).fences ≡ get k acc.fences
raised-fences acc i v k same (f, held, le) =
    let at : get v.resource acc.fences ≡ some f = ap (λ x. get x acc.fences) same ∙ held in
    let top : max (or_zero (get v.resource acc.fences)) v.fence ≡ f = rw at (omega arith) in
    let written =
      get-insert v.resource k (max (or_zero (get v.resource acc.fences)) v.fence) acc.fences in
    elim (Bool-cases (v.resource == k)) [
      | inl e ↦
          let found : get k acc.fences ≡ some f = cc ((eq_iff v.resource k).0 e) in
          rw (written, e, top) (sym found)
      | inr e ↦ rw (written, e)
    ]

restore-fences :
    (acc : LeaseTable) (m : BTreeMap Lease) (k : String)
    → IsSorted m
    → Fits m acc.fences
    → get k (restore (values m) acc).fences ≡ get k acc.fences
unfolding restore
restore-fences acc [] k s fits = refl
restore-fences acc ((i, v) ∷ m) k s fits =
    let (same, bound) = fits i v (get-first i v m) in
    restore-fences (raised acc v) m k (Above-IsSorted i m s) (λ r l h.
      let (q, (f, held, le)) = fits r l (get-tail_some i r v l m s h) in
      (q, (f, raised-fences acc i v r same bound ∙ held, le)))
    ∙ raised-fences acc i v k same bound

restore-leases :
    (acc : LeaseTable) (m : BTreeMap Lease) (k : String)
    → IsSorted m
    → ((r : String) (l : Lease) → get r m ≡ some l → l.resource ≡ r)
    → get k (restore (values m) acc).leases ≡ or_else (get k m) (get k acc.leases)
unfolding restore get
restore-leases acc [] k s keyed = refl
restore-leases acc ((i, v) ∷ m) k s keyed = ground (
  arith,
  restore-leases (raised acc v) m k (Above-IsSorted i m s)
      (λ r l h. keyed r l (get-tail_some i r v l m s h)),
  get-insert v.resource k v acc.leases,
  keyed i v (get-first i v m),
  get-Above i m s,
  eq_iff i k,
  eq_iff v.resource k,
)

restore-IsSorted :
    (acc : LeaseTable) (leases : List Lease)
    → IsSorted acc.leases
    → IsSorted acc.fences
    → IsSorted (restore leases acc).leases × IsSorted (restore leases acc).fences
unfolding restore
restore-IsSorted acc [] s t = (s, t)
restore-IsSorted acc (v ∷ leases) s t =
    restore-IsSorted (raised acc v) leases (insert-IsSorted v.resource v acc.leases s)
      (insert-IsSorted v.resource _ acc.fences t)

or_else-none : (a : Option Lease) → or_else a none ≡ a
or_else-none none = refl
or_else-none (some a) = refl

-- A consistent table is what `from_snapshot` makes of its snapshot and its fence snapshot: the
-- counters of released resources survive, and none is raised.
pub from_snapshot-snapshot :
    (table : LeaseTable)
    → IsConsistent table
    → from_snapshot (snapshot table) (fence_snapshot table) ≡ table
unfolding from_snapshot snapshot fence_snapshot get
from_snapshot-snapshot table c =
    let start : LeaseTable = record { leases = []; fences = table.fences } in
    let sorted = restore-IsSorted start (values table.leases) tt c.fences_sorted in
    let same_leases =
      IsSorted-ext (restore (values table.leases) start).leases table.leases sorted.0
        c.leases_sorted
        (λ k.
          restore-leases start table.leases k c.leases_sorted c.keyed
          ∙ or_else-none (get k table.leases)) in
    let same_fences =
      IsSorted-ext (restore (values table.leases) start).fences table.fences sorted.1
        c.fences_sorted
        (λ k.
          restore-fences start table.leases k c.leases_sorted
            (λ r l h. (c.keyed r l h, c.fenced r l h))) in
    λ i. record { leases = same_leases i; fences = same_fences i }
