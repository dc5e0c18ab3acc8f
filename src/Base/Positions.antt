-- ===== src/Base/Positions.antt =====
-- Positions in a list: `iter().position`, and the change of the element at a position.
use Prim.Native.Nat.{ℕ, zero, suc}
use mathlib.Core.Bool.{Bool, false}
use mathlib.Core.List.{List, [], ◌∷◌}
use mathlib.Core.Option
use mathlib.Core.Option.{Option, none, some, some-injective}
use mathlib.Core.Path.{◌≡◌, subst}
use mathlib.Core.Logic.{inl, inr}
use machine_fabric.Base.Test.{if◌then◌else◌, Bool-cases}
use machine_fabric.Base.Lists.{any}

module _ {ℓ} {A : Type ℓ} where
  abbrev pub find : (A → Bool) → List A → Option A
  find p [] = none
  find p (x ∷ xs) = let rest = find p xs in if p x then some x else rest

  abbrev pub position : (A → Bool) → List A → Option ℕ
  position p [] = none
  position p (x ∷ xs) =
      let rest = Option.map (λ n. suc n) (position p xs) in if p x then some 0 else rest

  abbrev pub get_elem? : List A → ℕ → Option A
  get_elem? [] n = none
  get_elem? (x ∷ xs) zero = some x
  get_elem? (x ∷ xs) (suc n) = get_elem? xs n

  abbrev pub update_at : ℕ → (A → A) → List A → List A
  update_at n f [] = []
  update_at zero f (x ∷ xs) = f x ∷ xs
  update_at (suc n) f (x ∷ xs) = x ∷ update_at n f xs

  -- The change of the first element that passes the test.
  abbrev pub update_first : (A → Bool) → (A → A) → List A → List A
  update_first p f [] = []
  update_first p f (x ∷ xs) = let rest = update_first p f xs in if p x then f x ∷ xs else x ∷ rest

-- An element at a position fails a test that all fail.
pub any-get_elem? {ℓ} :
    {A : Type ℓ} (p : A → Bool) (xs : List A) (i : ℕ) (x : A)
    → any p xs ≡ false
    → get_elem? xs i ≡ some x
    → p x ≡ false
any-get_elem? p [] i x h e = absurd (cc e)
any-get_elem? p (y ∷ ys) zero x h e = elim (Bool-cases (p y)) [
  | inl q ↦ absurd (cc (rw q at h))
  | inr q ↦ subst (λ z. p z ≡ false) (some-injective y x e) q
]
any-get_elem? p (y ∷ ys) (suc i) x h e = elim (Bool-cases (p y)) [
  | inl q ↦ absurd (cc (rw q at h))
  | inr q ↦ any-get_elem? p ys i x (rw q at h) e
]
