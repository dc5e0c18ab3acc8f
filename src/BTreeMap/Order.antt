-- ===== src/BTreeMap/Order.antt =====
-- The order of the keys, and maps whose keys ascend. Two such maps with the same lookups are equal.
use Prim.Native.Char.{Char, code}
use Prim.Native.String.compare
use text.Mathlib.TextPositions.{compare_refl}
use machine_fabric.Base.{
  String, ◌≡◌, ◌≢◌, refl, sym, ap, inl, inr, true, false, none, [], ◌∷◌, arith, eq_iff, eq_refl,
  ◌==◌, if◌then◌else◌, Bool-cases, ltb, nat_eq, ◌&&◌, ==_sym, false≢true,
}
use machine_fabric.BTreeMap.{BTreeMap, precedes, get, insert, remove}

precedes_irrefl : (s : String) → precedes s s ≡ false
precedes_irrefl s = rw (compare_refl s, precedes)

precedes_nil-cons : (d : Char) (t : String) → precedes String.[] (String.◌∷◌ d t) ≡ true
precedes_nil-cons d t = rw (compare.nil-cons d t, precedes)

precedes_cons-nil : (c : Char) (s : String) → precedes (String.◌∷◌ c s) String.[] ≡ false
precedes_cons-nil c s = rw (compare.cons-nil c s, precedes)

-- The first characters that differ decide.
precedes_cons-cons :
    (c d : Char) (s t : String)
    → precedes (String.◌∷◌ c s) (String.◌∷◌ d t)
      ≡ (if ltb (code c) (code d) then true else nat_eq (code c) (code d) && precedes s t)
precedes_cons-cons c d s t = rw (compare.cons-cons c d s t, precedes) (ground arith)

==_cons-cons :
    (c d : Char) (s t : String)
    → (String.◌∷◌ c s == String.◌∷◌ d t) ≡ (nat_eq (code c) (code d) && (s == t))
==_cons-cons c d s t = rw (compare.cons-cons c d s t, ◌==◌) (ground arith)

pub precedes_trans :
    (s t u : String) → precedes s t ≡ true → precedes t u ≡ true → precedes s u ≡ true
precedes_trans String.[] String.[] u p q = q
precedes_trans String.[] (String.◌∷◌ d t) String.[] p q = cc (precedes_cons-nil d t)
precedes_trans String.[] (String.◌∷◌ d t) (String.◌∷◌ e u) p q = precedes_nil-cons e u
precedes_trans (String.◌∷◌ c s) String.[] u p q = cc (precedes_cons-nil c s)
precedes_trans (String.◌∷◌ c s) (String.◌∷◌ d t) String.[] p q = cc (precedes_cons-nil d t)
precedes_trans (String.◌∷◌ c s) (String.◌∷◌ d t) (String.◌∷◌ e u) p q = ground (
  arith,
  precedes_cons-cons c d s t,
  precedes_cons-cons d e t u,
  precedes_cons-cons c e s u,
  precedes_trans s t u,
)

pub precedes_total : (s t : String) → precedes s t ≡ false → (s == t) ≡ false → precedes t s ≡ true
precedes_total String.[] String.[] p q = absurd (false≢true (sym q))
precedes_total String.[] (String.◌∷◌ d t) p q = cc (precedes_nil-cons d t)
precedes_total (String.◌∷◌ c s) String.[] p q = precedes_nil-cons c s
precedes_total (String.◌∷◌ c s) (String.◌∷◌ d t) p q = ground (
  arith,
  precedes_cons-cons c d s t,
  precedes_cons-cons d c t s,
  ==_cons-cons c d s t,
  precedes_total s t,
)

pub precedes-ne : (s t : String) → precedes s t ≡ true → (s == t) ≡ false
precedes-ne s t h = elim (Bool-cases (s == t)) [
  | inr e ↦ e
  | inl e ↦ cc (precedes_irrefl s, (eq_iff s t).0 e)
]

-- The keys ascend, and stay above a bound.
abbrev pub Above {ℓ} : {V : Type ℓ} → String → BTreeMap V → Type 0
Above k [] = Unit
Above k ((j, v) ∷ m) = (precedes k j ≡ true) × Above j m

abbrev pub IsSorted {ℓ} : {V : Type ℓ} → BTreeMap V → Type 0
IsSorted [] = Unit
IsSorted ((j, v) ∷ m) = Above j m

module _ {ℓ} {V : Type ℓ} where
  pub Above-mono : (j k : String) (m : BTreeMap V) → precedes j k ≡ true → Above k m → Above j m
  Above-mono j k [] p a = tt
  Above-mono j k ((i, v) ∷ m) p a = (precedes_trans j k i p a.0, a.1)

  pub Above-IsSorted : (k : String) (m : BTreeMap V) → Above k m → IsSorted m
  Above-IsSorted k [] a = tt
  Above-IsSorted k ((i, v) ∷ m) a = a.1

  pub get-Above : (k : String) (m : BTreeMap V) → Above k m → get k m ≡ none
  unfolding get
  get-Above k [] a = refl
  get-Above k ((i, v) ∷ m) a =
      ground (arith, precedes-ne k i a.0, ==_sym i k, get-Above k m (Above-mono k i m a.0 a.1))

  Above-insert :
      (b k : String) (v : V) (m : BTreeMap V)
      → precedes b k ≡ true
      → Above b m
      → Above b (insert k v m)
  unfolding insert
  Above-insert b k v [] p a = (p, tt)
  Above-insert b k v ((i, w) ∷ m) p a =
      ground (arith, eq_iff i k, ==_sym i k, precedes_total k i, Above-insert i k v m)

  pub insert-IsSorted : (k : String) (v : V) (m : BTreeMap V) → IsSorted m → IsSorted (insert k v m)
  unfolding insert
  insert-IsSorted k v [] a = tt
  insert-IsSorted k v ((i, w) ∷ m) a =
      ground (arith, eq_iff i k, ==_sym i k, precedes_total k i, Above-insert i k v m)

  Above-remove : (b k : String) (m : BTreeMap V) → Above b m → Above b (remove k m)
  unfolding remove
  Above-remove b k [] a = tt
  Above-remove b k ((i, w) ∷ m) a =
      ground (arith, Above-remove i k m a.1, Above-mono b i (remove k m) a.0)

  pub remove-IsSorted : (k : String) (m : BTreeMap V) → IsSorted m → IsSorted (remove k m)
  unfolding remove
  remove-IsSorted k [] a = tt
  remove-IsSorted k ((i, w) ∷ m) a =
      ground (arith, Above-remove i k m a, remove-IsSorted k m (Above-IsSorted i m a))

  -- A key below a sorted map is not in it.
  get-first_ne :
      (i j : String) (v w : V) (m n : BTreeMap V)
      → precedes i j ≡ true
      → Above j n
      → get i ((i, v) ∷ m) ≢ get i ((j, w) ∷ n)
  unfolding get
  get-first_ne i j v w m n p b h =
      ground (arith, eq_refl i, precedes-ne i j p, ==_sym i j, get-Above i n (Above-mono i j n p b))

  get-tail :
      (i j k : String) (v w : V) (m n : BTreeMap V)
      → i ≡ j
      → Above i m
      → Above j n
      → get k ((i, v) ∷ m) ≡ get k ((j, w) ∷ n)
      → get k m ≡ get k n
  unfolding get
  get-tail i j k v w m n q a b h = elim (Bool-cases (i == k)) [
    | inl e ↦ cc ((eq_iff i k).0 e, get-Above i m a, get-Above j n b)
    | inr e ↦ ground (arith, ap (λ x. x == k) q)
  ]

  get-head :
      (i j : String) (v w : V) (m n : BTreeMap V)
      → i ≡ j
      → get i ((i, v) ∷ m) ≡ get i ((j, w) ∷ n)
      → v ≡ w
  unfolding get
  get-head i j v w m n q h = ground (arith, eq_refl i, ap (λ x. x == i) q)

  entry_ext :
      (i j : String) (v w : V) (m n : BTreeMap V)
      → i ≡ j
      → v ≡ w
      → m ≡ n
      → ◌≡◌ {A = BTreeMap V} ((i, v) ∷ m) ((j, w) ∷ n)
  entry_ext i j v w m n p q r = λ d. (p d, q d) ∷ r d

  -- Two sorted maps with the same lookups are the same map.
  pub IsSorted-ext :
      (m n : BTreeMap V) → IsSorted m → IsSorted n → ((k : String) → get k m ≡ get k n) → m ≡ n
  unfolding get
  IsSorted-ext [] [] a b h = refl
  IsSorted-ext [] ((j, w) ∷ n) a b h = ground (arith, h j, eq_refl j)
  IsSorted-ext ((i, v) ∷ m) [] a b h = ground (arith, h i, eq_refl i)
  IsSorted-ext ((i, v) ∷ m) ((j, w) ∷ n) a b h =
      let tails : i ≡ j → m ≡ n = λ q.
        IsSorted-ext m n (Above-IsSorted i m a) (Above-IsSorted j n b)
          (λ k. get-tail i j k v w m n q a b (h k)) in
      elim (Bool-cases (i == j)) [
        | inl e ↦
            let q = (eq_iff i j).0 e in
            entry_ext i j v w m n q (get-head i j v w m n q (h i)) (tails q)
        | inr e ↦ elim (Bool-cases (precedes i j)) [
          | inl p ↦ absurd (get-first_ne i j v w m n p b (h i))
          | inr p ↦ absurd (get-first_ne j i w v n m (precedes_total i j p e) a (sym (h j)))
        ]
      ]
