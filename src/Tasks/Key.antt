-- ===== src/Tasks/Key.antt =====
-- crates/machine-fabric-core/src/task.rs: `scoped_idempotency_key` separates its parts by NUL.
use Prim.Native.Char.{Char, code, nul}
use text.Mathlib.TextLemmas.{nil-append, cons-append, cons-eq-cons, append_assoc}
use machine_fabric.Base.{String, ◌≡◌, refl, ap, ap₂, sym, ◌∙◌, false, arith, nat_eq}
use machine_fabric.Tasks.Table.{◌⊕◌, nul_text, scoped_idempotency_key}

-- No character of the text is NUL.
abbrev pub NulFree : String → Type 0
NulFree String.[] = Unit
NulFree (String.◌∷◌ c s) = (nat_eq (code c) 0 ≡ false) × NulFree s

nul-append : (s : String) → nul_text ⊕ s ≡ String.◌∷◌ nul s
nul-append s = cons-append nul String.[] s ∙ ap (String.◌∷◌ nul) (nil-append s)

head-ne_nul : (c : Char) → nat_eq (code c) 0 ≡ false → c ≡ nul → ⊥
head-ne_nul c h q = ground (arith, ap code q)

-- The first part and the rest can be read off a text.
split_inj :
    (a b s t : String)
    → NulFree a
    → NulFree b
    → a ⊕ nul_text ⊕ s ≡ b ⊕ nul_text ⊕ t
    → (a ≡ b) × (s ≡ t)
split_inj String.[] String.[] s t ha hb h =
    let q : String.◌∷◌ nul s ≡ String.◌∷◌ nul t =
      sym (nul-append s)
      ∙ sym (nil-append (nul_text ⊕ s))
      ∙ h
      ∙ nil-append (nul_text ⊕ t)
      ∙ nul-append t in
    (refl, (cons-eq-cons.0 q).1)
split_inj String.[] (String.◌∷◌ d b) s t ha hb h =
    let q : String.◌∷◌ nul s ≡ String.◌∷◌ d (b ⊕ nul_text ⊕ t) =
      sym (nul-append s) ∙ sym (nil-append (nul_text ⊕ s)) ∙ h ∙ cons-append d b (nul_text ⊕ t) in
    absurd (head-ne_nul d hb.0 (sym (cons-eq-cons.0 q).0))
split_inj (String.◌∷◌ c a) String.[] s t ha hb h =
    let q : String.◌∷◌ c (a ⊕ nul_text ⊕ s) ≡ String.◌∷◌ nul t =
      sym (cons-append c a (nul_text ⊕ s)) ∙ h ∙ nil-append (nul_text ⊕ t) ∙ nul-append t in
    absurd (head-ne_nul c ha.0 (cons-eq-cons.0 q).0)
split_inj (String.◌∷◌ c a) (String.◌∷◌ d b) s t ha hb h =
    let q : String.◌∷◌ c (a ⊕ nul_text ⊕ s) ≡ String.◌∷◌ d (b ⊕ nul_text ⊕ t) =
      sym (cons-append c a (nul_text ⊕ s)) ∙ h ∙ cons-append d b (nul_text ⊕ t) in
    let (heads, tails) = cons-eq-cons.0 q in
    let (p, r) = split_inj a b s t ha.1 hb.1 tails in (ap₂ String.◌∷◌ heads p, r)

-- When the session, the executor and the capability hold no NUL, the scoped key of a submission
-- determines all of its four parts; the key itself may be any text.
pub scoped_key_inj :
    (session executor capability key session' executor' capability' key' : String)
    → NulFree session
    → NulFree session'
    → NulFree executor
    → NulFree executor'
    → NulFree capability
    → NulFree capability'
    → scoped_idempotency_key session executor capability key
      ≡ scoped_idempotency_key session' executor' capability' key'
    → (session ≡ session') × (executor ≡ executor') × (capability ≡ capability') × (key ≡ key')
unfolding scoped_idempotency_key
scoped_key_inj s e c k s' e' c' k' hs hs' he he' hc hc' h =
    let (p, rest) = split_inj s s' _ _ hs hs' h in
    let (q, rest') = split_inj e e' _ _ he he' rest in
    let (r, t) = split_inj c c' _ _ hc hc' rest' in (p, q, r, t)

-- Without that condition two different submissions share one key: the second would be answered
-- with the task of the first.
pub scoped_key_collision :
    (a b c d k : String)
    → scoped_idempotency_key (a ⊕ nul_text ⊕ b) c d k
      ≡ scoped_idempotency_key a b (c ⊕ nul_text ⊕ d) k
unfolding scoped_idempotency_key
scoped_key_collision a b c d k = simp append_assoc
