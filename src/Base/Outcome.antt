-- ===== src/Base/Outcome.antt =====
-- Rust's `Result`, with the error type as a parameter.

use mathlib.Core.Bool.{Bool, true, false}
use mathlib.Core.Path.{◌≡◌, refl}
use machine_fabric.Base.Test.{if◌then◌else◌}

pub data Result {ℓ κ} (E : Type ℓ) (A : Type κ) : Type (ℓ ⊔ κ) where
  ok : A → Result E A
  err : E → Result E A

-- `?` on a result.
infixl 5 ◌>>=◌ ◌>>◌
abbrev pub ◌>>=◌ {ℓ κ μ} :
    {E : Type ℓ} {A : Type κ} {B : Type μ} → Result E A → (A → Result E B) → Result E B
ok a >>= f = f a
err e >>= f = err e

abbrev pub ◌>>◌ {ℓ μ} : {E : Type ℓ} {B : Type μ} → Result E (Unit {0}) → Result E B → Result E B
m >> k = m >>= λ _. k

-- `?` in a method that changes its object: an error ends it with the object as it is then.
abbrev pub after {ℓ κ μ ν} :
    {E : Type ℓ} {A : Type κ} {B : Type μ} {S : Type ν}
    → Result E A × S
    → (A → S → Result E B × S)
    → Result E B × S
after (err e, s) f = (err e, s)
after (ok a, s) f = f a s

pub bind-ok {ℓ κ μ} :
    {E : Type ℓ} {A : Type κ} {B : Type μ} (m : Result E A) (f : A → Result E B) (b : B)
    → (m >>= f) ≡ ok b
    → (a : A) × (m ≡ ok a) × (f a ≡ ok b)
bind-ok (ok a) f b h = (a, refl, h)
bind-ok (err e) f b h = absurd (cc h)

pub seq-ok {ℓ μ} :
    {E : Type ℓ} {B : Type μ} (m : Result E (Unit {0})) (k : Result E B) (b : B)
    → (m >> k) ≡ ok b
    → (m ≡ ok tt) × (k ≡ ok b)
seq-ok (ok u) k b h = (refl, h)
seq-ok (err e) k b h = absurd (cc h)

pub ok_unique {ℓ κ} :
    {E : Type ℓ} {A : Type κ} (m : Result E A) (a b : A) → m ≡ ok a → m ≡ ok b → a ≡ b
ok_unique m a b p q = cc (p, q)

-- A guard that returns an error.
pub guard-ok {ℓ κ} :
    {E : Type ℓ} {A : Type κ} (b : Bool) (e : E) (m : Result E A) (a : A)
    → (if b then err e else m) ≡ ok a
    → m ≡ ok a
guard-ok true e m a h = absurd (cc h)
guard-ok false e m a h = h
