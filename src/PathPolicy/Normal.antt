-- ===== src/PathPolicy/Normal.antt =====
-- crates/machine-fabric-runtime/src/path_policy.rs: the normal form that `logical_path` gives.
use machine_fabric.Base.{
  sym, subst, ◌≡◌, refl, ap, ap₂, Bool, true, false, ◌&&◌, [], ◌∷◌, ◌++◌, All, arith, eq_iff,
  Result, ok, err, drop, length,
}
use machine_fabric.PathPolicy.Paths.{
  Component, root_dir, cur_dir, parent_dir, normal, FilePath, PathError, same_component, within,
  reverse_onto, logical_loop, logical_path, same_path, both_within,
}

abbrev pub is_name : Component → Bool
is_name (normal s) = true
is_name _ = false

-- The root and then names only: no step to itself and none to a parent.
pub data IsPlain : FilePath → Type 0 where
  plain : {names : FilePath} → All (λ c. is_name c ≡ true) names → IsPlain (root_dir ∷ names)

-- The same in reverse.
abbrev IsTurned : FilePath → Type 0
IsTurned [] = ⊥
IsTurned (normal s ∷ path) = IsTurned path
IsTurned (root_dir ∷ []) = Unit
IsTurned (root_dir ∷ c ∷ path) = ⊥
IsTurned (cur_dir ∷ path) = ⊥
IsTurned (parent_dir ∷ path) = ⊥

reverse_onto-IsPlain :
    (turned names : FilePath)
    → IsTurned turned
    → All (λ c. is_name c ≡ true) names
    → IsPlain (reverse_onto turned names)
reverse_onto-IsPlain [] names t n = absurd t
reverse_onto-IsPlain (normal s ∷ path) names t n =
    reverse_onto-IsPlain path (normal s ∷ names) t (refl, n)
reverse_onto-IsPlain (root_dir ∷ []) names t n = plain n
reverse_onto-IsPlain (root_dir ∷ c ∷ path) names t n = absurd t
reverse_onto-IsPlain (cur_dir ∷ path) names t n = absurd t
reverse_onto-IsPlain (parent_dir ∷ path) names t n = absurd t

logical_loop-IsPlain :
    (turned path q : FilePath) → IsTurned turned → logical_loop turned path ≡ ok q → IsPlain q
unfolding logical_loop
logical_loop-IsPlain turned [] q t h =
    let same : reverse_onto turned [] ≡ q = cc in
    subst IsPlain same (reverse_onto-IsPlain turned [] t tt)
logical_loop-IsPlain turned (root_dir ∷ path) q t h =
    logical_loop-IsPlain (root_dir ∷ []) path q tt h
logical_loop-IsPlain turned (cur_dir ∷ path) q t h = logical_loop-IsPlain turned path q t h
logical_loop-IsPlain turned (normal s ∷ path) q t h =
    logical_loop-IsPlain (normal s ∷ turned) path q t h
logical_loop-IsPlain [] (parent_dir ∷ path) q t h = absurd t
logical_loop-IsPlain (normal s ∷ turned) (parent_dir ∷ path) q t h =
    logical_loop-IsPlain turned path q t h
logical_loop-IsPlain (root_dir ∷ turned) (parent_dir ∷ path) q t h = absurd (cc h)
logical_loop-IsPlain (cur_dir ∷ turned) (parent_dir ∷ path) q t h = absurd t
logical_loop-IsPlain (parent_dir ∷ turned) (parent_dir ∷ path) q t h = absurd t

logical_loop-names :
    (turned names : FilePath)
    → All (λ c. is_name c ≡ true) names
    → logical_loop turned names ≡ ok (reverse_onto turned names)
unfolding logical_loop
logical_loop-names turned [] n = refl
logical_loop-names turned (normal s ∷ names) n = logical_loop-names (normal s ∷ turned) names n.1
logical_loop-names turned (root_dir ∷ names) n = absurd (cc n.0)
logical_loop-names turned (cur_dir ∷ names) n = absurd (cc n.0)
logical_loop-names turned (parent_dir ∷ names) n = absurd (cc n.0)

plain-logical : (q : FilePath) → IsPlain q → logical_path q ≡ ok q
unfolding logical_path
plain-logical q (plain {names} n) = logical_loop-names (root_dir ∷ []) names n

-- What `logical_path` accepts becomes the root and names, with no step to a parent left: it cannot
-- leave the root. A path of that form is its own logical path.
pub logical_path-IsPlain :
    (path q : FilePath) → logical_path path ≡ ok q → IsPlain q × (logical_path q ≡ ok q)
unfolding logical_path
logical_path-IsPlain [] q h = absurd (cc h)
logical_path-IsPlain (root_dir ∷ path) q h =
    let form = logical_loop-IsPlain (root_dir ∷ []) path q tt h in (form, plain-logical q form)
logical_path-IsPlain (cur_dir ∷ path) q h = absurd (cc h)
logical_path-IsPlain (parent_dir ∷ path) q h = absurd (cc h)
logical_path-IsPlain (normal s ∷ path) q h = absurd (cc h)

same_component-eq : (a b : Component) → same_component a b ≡ true → a ≡ b
same_component-eq root_dir root_dir h = refl
same_component-eq cur_dir cur_dir h = refl
same_component-eq parent_dir parent_dir h = refl
same_component-eq (normal s) (normal t) h = ground (arith, h, eq_iff s t)
same_component-eq root_dir cur_dir h = absurd (cc h)
same_component-eq root_dir parent_dir h = absurd (cc h)
same_component-eq root_dir (normal t) h = absurd (cc h)
same_component-eq cur_dir root_dir h = absurd (cc h)
same_component-eq cur_dir parent_dir h = absurd (cc h)
same_component-eq cur_dir (normal t) h = absurd (cc h)
same_component-eq parent_dir root_dir h = absurd (cc h)
same_component-eq parent_dir cur_dir h = absurd (cc h)
same_component-eq parent_dir (normal t) h = absurd (cc h)
same_component-eq (normal s) root_dir h = absurd (cc h)
same_component-eq (normal s) cur_dir h = absurd (cc h)
same_component-eq (normal s) parent_dir h = absurd (cc h)

both-true : (a b : Bool) → a && b ≡ true → (a ≡ true) × (b ≡ true)
both-true true b h = (refl, h)
both-true false b h = absurd (cc h)

-- A path within a root is the root and then the rest of the path.
pub within-split :
    (path root : FilePath) → within path root ≡ true → path ≡ root ++ drop (length root) path
unfolding within
within-split path [] h = refl
within-split [] (r ∷ root) h = absurd (cc h)
within-split (a ∷ path) (r ∷ root) h =
    let (same, rest) = both-true (same_component a r) (within path root) h in
    ap₂ (λ x xs. x ∷ xs) (same_component-eq a r same) (within-split path root rest)

pub within-antisym : (a b : FilePath) → within a b ≡ true → within b a ≡ true → a ≡ b
unfolding within
within-antisym [] [] h k = refl
within-antisym [] (y ∷ b) h k = absurd (cc h)
within-antisym (x ∷ a) [] h k = absurd (cc k)
within-antisym (x ∷ a) (y ∷ b) h k =
    let (same, rest) = both-true (same_component x y) (within a b) h in
    let (_, rest') = both-true (same_component y x) (within b a) k in
    ap₂ (λ z zs. z ∷ zs) (same_component-eq x y same) (within-antisym a b rest rest')

both_within-eq :
    (a b : Result PathError FilePath)
    → both_within a b ≡ true
    → (p : FilePath) × (a ≡ ok p) × (b ≡ ok p)
both_within-eq (ok p) (ok q) h =
    let (pq, qp) = both-true (within p q) (within q p) h in
    (p, refl, ap ok (sym (within-antisym p q pq qp)))
both_within-eq (ok p) (err e) h = absurd (cc h)
both_within-eq (err d) b h = absurd (cc h)

-- `same_path` holds of paths that have one and the same logical path.
pub same_path-eq :
    (left right : FilePath)
    → same_path left right ≡ true
    → (p : FilePath) × (logical_path left ≡ ok p) × (logical_path right ≡ ok p)
unfolding same_path
same_path-eq left right h = both_within-eq (logical_path left) (logical_path right) h
