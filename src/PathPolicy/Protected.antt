-- ===== src/PathPolicy/Protected.antt =====
-- crates/machine-fabric-runtime/src/path_policy.rs: what a new policy never lets anyone read.
use machine_fabric.Base.{
  ◌≡◌, refl, ap, subst, true, not, Option, none, some, List, [], ◌∷◌, ◌++◌, any, All, arith,
  eq_refl, Result, ok, err, bind-ok, guard-ok, ok_unique, All-map, Bool-cases, inl, inr,
}
use machine_fabric.PathPolicy.Paths.{
  Component, root_dir, cur_dir, parent_dir, normal, FilePath, PathError, path_read_denied,
  invalid_root, FileSystem, same_component, within, is_absolute, resolve_path,
}
use machine_fabric.PathPolicy.Policy.{
  PathAccess, DesktopPathPolicy, is_within_any, check, same_component_paths, push_new,
  push_resolved, add_read_root,
}
use machine_fabric.PathPolicy.Normal.{within-antisym}
use machine_fabric.PathPolicy.Roots.{
  protected, writable, canonical_home, deny_each, allow_each, allow_variables, new,
}

same_component_refl : (c : Component) → same_component c c ≡ true
same_component_refl root_dir = refl
same_component_refl cur_dir = refl
same_component_refl parent_dir = refl
same_component_refl (normal s) = eq_refl s

within-append : (root rest : FilePath) → within (root ++ rest) root ≡ true
unfolding within
within-append [] rest = refl
within-append (c ∷ root) rest = rw (same_component_refl c) (within-append root rest)

within-there :
    (path root : FilePath) (roots : List FilePath)
    → within path root ≡ true
    → any (same_component_paths root) roots ≡ true
    → is_within_any roots path ≡ true
within-there path root [] h k = absurd (cc k)
within-there path root (r ∷ roots) h k = elim (Bool-cases (same_component_paths root r)) [
  | inl e ↦
      let same : root ≡ r = within-antisym root r (ground (arith, e)) (ground (arith, e)) in
      rw (subst (λ x. within path x ≡ true) same h) refl
  | inr e ↦ ground (arith, within-there path root roots h (ground (arith, e, k)))
]

is_within_any-append :
    (path root : FilePath) (roots : List FilePath)
    → within path root ≡ true
    → is_within_any (roots ++ root ∷ []) path ≡ true
is_within_any-append path root [] h = rw h refl
is_within_any-append path root (r ∷ roots) h =
    ground (arith, is_within_any-append path root roots h)

is_within_any-more :
    (path root : FilePath) (roots : List FilePath)
    → is_within_any roots path ≡ true
    → is_within_any (roots ++ root ∷ []) path ≡ true
is_within_any-more path root [] h = absurd (cc h)
is_within_any-more path root (r ∷ roots) h = ground (arith, h, is_within_any-more path root roots)

push_new-denies :
    (path root : FilePath) (roots : List FilePath)
    → within path root ≡ true
    → is_within_any (push_new roots root) path ≡ true
push_new-denies path root roots h = elim (Bool-cases (any (same_component_paths root) roots)) [
  | inl e ↦ rw e (within-there path root roots h e)
  | inr e ↦ rw e (is_within_any-append path root roots h)
]

push_new-keeps :
    (path root : FilePath) (roots : List FilePath)
    → is_within_any roots path ≡ true
    → is_within_any (push_new roots root) path ≡ true
push_new-keeps path root roots h = elim (Bool-cases (any (same_component_paths root) roots)) [
  | inl e ↦ rw e h
  | inr e ↦ rw e (is_within_any-more path root roots h)
]

push_resolved-keeps :
    (path : FilePath) (roots : List FilePath) (resolved : Result PathError FilePath)
    → is_within_any roots path ≡ true
    → is_within_any (push_resolved roots resolved) path ≡ true
push_resolved-keeps path roots (ok root) h = push_new-keeps path root roots h
push_resolved-keeps path roots (err e) h = h

-- What one list of roots denies, the other denies.
abbrev Keeps : List FilePath → List FilePath → Type 0
Keeps roots later =
    (path : FilePath) → is_within_any roots path ≡ true → is_within_any later path ≡ true

-- A root and all below it.
abbrev Denies : List FilePath → FilePath → Type 0
Denies roots root = (rest : FilePath) → is_within_any roots (root ++ rest) ≡ true

add_read_root-Denies :
    (fs : FileSystem) (roots : List FilePath) (root : FilePath) (later : List FilePath)
    → add_read_root fs roots root ≡ ok later
    → Keeps roots later × Denies later root
unfolding add_read_root
add_read_root-Denies fs roots root later h =
    let pushed = push_resolved (push_new roots root) (resolve_path fs root) in
    let same : pushed ≡ later =
      ok_unique (ok pushed) pushed later refl
        (guard-ok (not (is_absolute root)) invalid_root (ok pushed) later h) in
    (
      λ path k.
          subst (λ rs. is_within_any rs path ≡ true) same
            (push_resolved-keeps path (push_new roots root) (resolve_path fs root)
              (push_new-keeps path root roots k)),
      λ rest.
          subst (λ rs. is_within_any rs (root ++ rest) ≡ true) same
            (push_resolved-keeps (root ++ rest) (push_new roots root) (resolve_path fs root)
              (push_new-denies (root ++ rest) root roots (within-append root rest))),
    )

deny_each-Denies :
    (fs : FileSystem) (original home : FilePath) (roots : List FilePath) (relatives : List FilePath)
    (later : List FilePath)
    → deny_each fs original home roots relatives ≡ ok later
    → Keeps roots later
      × All (λ r. Denies later (original ++ r) × Denies later (home ++ r)) relatives
unfolding deny_each
deny_each-Denies fs original home roots [] later h =
    let same : roots ≡ later = ok_unique (ok roots) roots later refl h in
    ((λ path k. subst (λ rs. is_within_any rs path ≡ true) same k), tt)
deny_each-Denies fs original home roots (r ∷ relatives) later h =
    let (one, added, more) = bind-ok (add_read_root fs roots (original ++ r)) _ later h in
    let (two, added', rest_ok) = bind-ok (add_read_root fs one (home ++ r)) _ later more in
    let (keeps, denies) = add_read_root-Denies fs roots (original ++ r) one added in
    let (keeps', denies') = add_read_root-Denies fs one (home ++ r) two added' in
    let (keeps'', all) = deny_each-Denies fs original home two relatives later rest_ok in
    (
      λ path k. keeps'' path (keeps' path (keeps path k)),
      ((λ rest. keeps'' _ (keeps' _ (denies rest)), λ rest. keeps'' _ (denies' rest)), all),
    )

check-denied :
    (policy : DesktopPathPolicy) (path : FilePath) (access : PathAccess)
    → is_within_any policy.read_denied path ≡ true
    → check policy path access ≡ err path_read_denied
unfolding check
check-denied policy path access h = rw h refl

canonical_home-some :
    (found : Option FilePath) (home : FilePath) → canonical_home found ≡ ok home → found ≡ some home
canonical_home-some none home h = absurd (cc h)
canonical_home-some (some root) home h = ap some (ok_unique (ok root) root home refl h)

-- Every access below the two names of a credential is denied.
abbrev pub Protects : DesktopPathPolicy → FilePath → FilePath → FilePath → Type 0
Protects policy original_home home relative =
    (rest : FilePath) (access : PathAccess)
    → (check policy ((original_home ++ relative) ++ rest) access ≡ err path_read_denied)
      × (check policy ((home ++ relative) ++ rest) access ≡ err path_read_denied)

-- A policy that `new` made denies every access to each credential of the list and to all that is below
-- it, under the home as it was given and under its canonical name.
pub new-Protects :
    (fs : FileSystem) (variables : List (Option FilePath)) (original_home : FilePath)
    (policy : DesktopPathPolicy)
    → new fs variables original_home ≡ ok policy
    → (home : FilePath) × (fs.canonicalize original_home ≡ some home)
      × All (Protects policy original_home home) protected
unfolding new
new-Protects fs variables original policy h =
    let (home, found, h') = bind-ok (canonical_home (fs.canonicalize original)) _ policy h in
    let (denied, denied_ok, h'') = bind-ok (deny_each fs original home [] protected) _ policy h' in
    let (roots, _, h''') = bind-ok (allow_each fs original home ([], []) writable) _ policy h'' in
    let (allowed, _, made) = bind-ok (allow_variables fs home roots variables) _ policy h''' in
    let same : denied ≡ policy.read_denied =
      ap (λ p. p.read_denied) (ok_unique _ _ policy refl made) in
    let (_, all) = deny_each-Denies fs original home [] protected denied denied_ok in
    let step : (r : FilePath)
        → Denies denied (original ++ r) × Denies denied (home ++ r)
        → Protects policy original home r =
      λ r d rest access. (
        check-denied policy _ access
            (subst (λ rs. is_within_any rs ((original ++ r) ++ rest) ≡ true) same (d.0 rest)),
        check-denied policy _ access
            (subst (λ rs. is_within_any rs ((home ++ r) ++ rest) ≡ true) same (d.1 rest)),
      ) in
    (home, canonical_home-some (fs.canonicalize original) home found, All-map step protected all)
