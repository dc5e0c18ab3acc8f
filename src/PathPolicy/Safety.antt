-- ===== src/PathPolicy/Safety.antt =====
-- crates/machine-fabric-runtime/src/path_policy.rs: a write that `check_resolved` allows.
use machine_fabric.Base.{
  ◌≡◌, true, false, ◌⊎◌, inl, inr, some, List, [], ◌∷◌, ◌++◌, drop, length, Exists, arith, Result,
  ok, ◌>>◌, bind-ok, Option-cases,
}
use machine_fabric.PathPolicy.Paths.{
  FilePath, PathError, FileSystem, logical_path, same_path, resolve_path,
}
use machine_fabric.PathPolicy.Policy.{
  PathAccess, read, write, DesktopPathPolicy, is_within_any, check, matched_root, mapped,
  check_mappings, check_resolved,
}
use machine_fabric.PathPolicy.Normal.{same_path-eq}

check-ok :
    (policy : DesktopPathPolicy) (path : FilePath) (access : PathAccess) (u : Unit {0})
    → check policy path access ≡ ok u
    → is_within_any policy.read_denied path ≡ false
unfolding check
check-ok policy path access u h = ground (arith, h)

check-write :
    (policy : DesktopPathPolicy) (path : FilePath) (u : Unit {0})
    → check policy path write ≡ ok u
    → is_within_any policy.write_allowed path ≡ true
unfolding check
check-write policy path u h = ground (arith, h)

-- A logical path lies in a mapping, by the mapping's own name or that of its target; the mapping
-- still leads to its target, and the resolved path is the place below the target that the logical
-- path names.
pub record Redirects (fs : FileSystem) (logical resolved : FilePath) (mapping : FilePath × FilePath)
    : Type 0 where
  pub physical : FilePath
  pub target_plain : logical_path mapping.1 ≡ ok physical
  pub matched : FilePath
  pub matches : matched_root logical mapping.0 physical ≡ some matched
  pub actual : FilePath
  pub leads : resolve_path fs mapping.0 ≡ ok actual
  pub unchanged : same_path actual mapping.1 ≡ true
  pub place : FilePath
  pub lands : logical_path resolved ≡ ok place
  pub expected : logical_path (mapping.1 ++ drop (length matched) logical) ≡ ok place

mapped-some :
    (fs : FileSystem) (logical resolved root target matched : FilePath)
    (rest : Result PathError (Unit {0}))
    → mapped fs logical resolved root target (some matched) rest ≡ ok tt
    → (actual : FilePath) × (resolve_path fs root ≡ ok actual)
      × (same_path actual target ≡ true)
      × (same_path resolved (target ++ drop (length matched) logical) ≡ true)
mapped-some fs logical resolved root target matched rest h =
    let (actual, leads, checks) = bind-ok (resolve_path fs root) _ tt h in
    (actual, leads, ground (arith, checks), ground (arith, checks))

check_mappings-ok :
    (fs : FileSystem) (logical resolved : FilePath) (otherwise : Result PathError (Unit {0}))
    (mappings : List (FilePath × FilePath))
    → check_mappings fs logical resolved otherwise mappings ≡ ok tt
    → Exists (Redirects fs logical resolved) mappings ⊎ (otherwise ≡ ok tt)
unfolding check_mappings
check_mappings-ok fs logical resolved otherwise [] h = inr h
check_mappings-ok fs logical resolved otherwise ((root, target) ∷ mappings) h =
    let (physical, plain_target, rest_ok) = bind-ok (logical_path target) _ tt h in
    elim (Option-cases (matched_root logical root physical)) [
      | inl e ↦ elim (check_mappings-ok fs logical resolved otherwise mappings (rw e at rest_ok)) [
        | inl found ↦ inl (inr found)
        | inr o ↦ inr o
      ]
      | inr (matched, e) ↦
          let (actual, leads, unchanged, same) =
            mapped-some fs logical resolved root target matched
              (check_mappings fs logical resolved otherwise mappings) (rw e at rest_ok) in
          let (place, lands, expected) =
            same_path-eq resolved (target ++ drop (length matched) logical) same in
          inl (
            inl (record {
              physical = physical;
              target_plain = plain_target;
              matched = matched;
              matches = e;
              actual = actual;
              leads = leads;
              unchanged = unchanged;
              place = place;
              lands = lands;
              expected = expected;
            }))
    ]

-- A write that `check_resolved` allows is for a path that is in no protected root, neither by its
-- logical name, as given and in normal form, nor as it was resolved. The resolved path is in a write
-- root, or it is the place that the logical path names below the target of a managed mapping, and
-- the mapping still leads to that target.
pub check_resolved_safe :
    (fs : FileSystem) (policy : DesktopPathPolicy) (logical resolved : FilePath)
    → check_resolved fs policy logical resolved write ≡ ok tt
    → (plain : FilePath) × (logical_path logical ≡ ok plain)
      × (is_within_any policy.read_denied logical ≡ false)
      × (is_within_any policy.read_denied resolved ≡ false)
      × (is_within_any policy.read_denied plain ≡ false)
      × ((is_within_any policy.write_allowed resolved ≡ true)
          ⊎ Exists (Redirects fs plain resolved) policy.managed_mappings)
unfolding check_resolved
check_resolved_safe fs policy logical resolved h =
    let reads = check policy logical read >> check policy resolved read in
    let (p, before, after_plain) = bind-ok (reads >> logical_path logical) _ tt h in
    let (v, both, plain_ok) = bind-ok reads (λ _. logical_path logical) p before in
    let (u, logical_read, resolved_read) =
      bind-ok (check policy logical read) (λ _. check policy resolved read) v both in
    let (w, plain_read, checks) = bind-ok (check policy p read) _ tt after_plain in
    (
      p,
      plain_ok,
      check-ok policy logical read u logical_read,
      check-ok policy resolved read v resolved_read,
      check-ok policy p read w plain_read,
      elim (check_mappings-ok fs p resolved (check policy resolved write) policy.managed_mappings
          checks) [ inl found ↦ inr found | inr o ↦ inl (check-write policy resolved tt o) ],
    )
