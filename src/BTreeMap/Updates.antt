-- ===== src/BTreeMap/Updates.antt =====
-- Two maps with the same keys, whose values are related key by key: what `values_mut` leaves.
use machine_fabric.Base.{String, ◌≡◌, subst, inl, inr, some, [], ◌∷◌, arith, ◌==◌, Bool-cases}
use machine_fabric.BTreeMap.{BTreeMap, get}
use machine_fabric.BTreeMap.Order.{Above, IsSorted}

pub data Updates {V : Type 0} (R : V → V → Type 0) : BTreeMap V → BTreeMap V → Type 0 where
  done : Updates R [] []
  update :
      {i : String} {v w : V} {m n : BTreeMap V}
      → R v w
      → Updates R m n
      → Updates R ((i, v) ∷ m) ((i, w) ∷ n)

module _ {V : Type 0} {R : V → V → Type 0} where
  Updates-Above : {m n : BTreeMap V} (k : String) → Updates R m n → Above k m → Above k n
  Updates-Above k done a = tt
  Updates-Above k (update {i} r u) a = (a.0, Updates-Above i u a.1)

  pub Updates-IsSorted : {m n : BTreeMap V} → Updates R m n → IsSorted m → IsSorted n
  Updates-IsSorted done a = tt
  Updates-IsSorted (update {i} r u) a = Updates-Above i u a

  pub Updates-get :
      {m n : BTreeMap V} (k : String) (v : V)
      → Updates R m n
      → get k m ≡ some v
      → (w : V) × (get k n ≡ some w) × R v w
  unfolding get
  Updates-get k v done h = cc
  Updates-get k v (update {i} {v = a} {w = b} r u) h = elim (Bool-cases (i == k)) [
    | inl e ↦ (b, rw e, subst (λ x. R x b) (ground arith) r)
    | inr e ↦ rw e (Updates-get k v u (ground arith))
  ]

  pub Updates-get_back :
      {m n : BTreeMap V} (k : String) (w : V)
      → Updates R m n
      → get k n ≡ some w
      → (v : V) × (get k m ≡ some v) × R v w
  unfolding get
  Updates-get_back k w done h = cc
  Updates-get_back k w (update {i} {v = a} {w = b} r u) h = elim (Bool-cases (i == k)) [
    | inl e ↦ (a, rw e, subst (λ x. R a x) (ground arith) r)
    | inr e ↦ rw e (Updates-get_back k w u (ground arith))
  ]
