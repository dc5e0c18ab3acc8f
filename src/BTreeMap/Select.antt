-- ===== src/BTreeMap/Select.antt =====
-- The keys that a filter over the values of a map collects, as pruning and reaping collect them.
use machine_fabric.Base.{
  String, ◌≡◌, refl, Bool, false, ◌||◌, inl, inr, Option, none, some, List, [], ◌∷◌, map, keep,
  arith, eq_iff, eq_refl, ◌==◌, Bool-cases,
}
use machine_fabric.BTreeMap.{BTreeMap, get, values}
use machine_fabric.BTreeMap.Order.{Above, Above-IsSorted, IsSorted, get-Above}

abbrev pub listed : String → List String → Bool
listed j [] = false
listed j (id ∷ ids) = id == j || listed j ids

module _ {V : Type 0} where
  abbrev pub selected : (V → Bool) → Option V → Bool
  selected p none = false
  selected p (some v) = p v

  -- A tail of a sorted map has no other lookups than the map.
  pub get-tail_some :
      (i k : String) (v w : V) (m : BTreeMap V)
      → Above i m
      → get k m ≡ some w
      → get k ((i, v) ∷ m) ≡ some w
  unfolding get
  get-tail_some i k v w m a h = elim (Bool-cases (i == k)) [
    | inl e ↦ cc ((eq_iff i k).0 e, get-Above i m a)
    | inr e ↦ rw e h
  ]

  pub get-first : (i : String) (v : V) (m : BTreeMap V) → get i ((i, v) ∷ m) ≡ some v
  unfolding get
  get-first i v m = ground (arith, eq_refl i)

  -- Where every value names its key, the filter lists the keys whose values pass it.
  pub listed-selected :
      (p : V → Bool) (key : V → String) (m : BTreeMap V) (j : String)
      → IsSorted m
      → ((k : String) (v : V) → get k m ≡ some v → key v ≡ k)
      → listed j (map key (keep p (values m))) ≡ selected p (get j m)
  unfolding get
  listed-selected p key [] j s keyed = refl
  listed-selected p key ((i, v) ∷ m) j s keyed = ground (
    arith,
    keyed i v (get-first i v m),
    listed-selected p key m j (Above-IsSorted i m s)
        (λ k w h. keyed k w (get-tail_some i k v w m s h)),
    get-Above i m s,
    eq_iff i j,
  )
