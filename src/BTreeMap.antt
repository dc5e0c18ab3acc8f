-- ===== src/BTreeMap.antt =====
-- `std::collections::BTreeMap` with text keys: the entries in ascending order of the keys.
pub mod Order
pub mod Updates
pub mod Select
use Prim.Native.Nat.{Ordering}
use Prim.Native.String.{compare}
use machine_fabric.Base.{
  String, ◌≡◌, refl, Bool, true, false, Option, none, some, List, [], ◌∷◌, map, arith, eq_iff, ◌==◌,
  if◌then◌else◌,
}

abbrev pub BTreeMap {ℓ} : Type ℓ → Type ℓ
BTreeMap V = List (String × V)

-- The byte order of texts, which is that of their code points.
abbrev pub precedes : String → String → Bool
precedes s t = elim (compare s t) [ Ordering.lt ↦ true | _ ↦ false ]

module _ {ℓ} {V : Type ℓ} where
  unfoldable pub get : String → BTreeMap V → Option V
  get k [] = none
  get k ((j, v) ∷ m) = if j == k then some v else get k m

  unfoldable pub insert : String → V → BTreeMap V → BTreeMap V
  insert k v [] = (k, v) ∷ []
  insert k v ((j, w) ∷ m) =
      let rest = insert k v m in
      if j == k then (k, v) ∷ m else if precedes k j then (k, v) ∷ (j, w) ∷ m else (j, w) ∷ rest

  unfoldable pub remove : String → BTreeMap V → BTreeMap V
  remove k [] = []
  remove k ((j, v) ∷ m) = let rest = remove k m in if j == k then rest else (j, v) ∷ rest

  abbrev pub values : BTreeMap V → List V
  values = map (λ e. e.1)

  pub get-insert :
      (k j : String) (v : V) (m : BTreeMap V)
      → get j (insert k v m) ≡ (if k == j then some v else get j m)
  unfolding get insert
  get-insert k j v [] = refl
  get-insert k j v ((i, w) ∷ m) =
      ground (arith, eq_iff k j, eq_iff i k, eq_iff i j, get-insert k j v m)

  pub get-remove :
      (k j : String) (m : BTreeMap V) → get j (remove k m) ≡ (if k == j then none else get j m)
  unfolding get remove
  get-remove k j [] = ground arith
  get-remove k j ((i, w) ∷ m) = ground (arith, eq_iff k j, eq_iff i k, eq_iff i j, get-remove k j m)
