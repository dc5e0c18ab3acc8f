-- ===== src/PathPolicy/Policy.antt =====
-- crates/machine-fabric-runtime/src/path_policy.rs, for the Unix targets: `DesktopPathPolicy`.
use machine_fabric.Base.{
  Bool, true, false, ◌&&◌, ◌||◌, not, Option, none, some, List, [], ◌∷◌, ◌++◌, any, drop, length,
  if◌then◌else◌, Result, ok, err, ◌>>=◌, ◌>>◌,
}
use machine_fabric.PathPolicy.Paths.{
  FilePath, PathError, invalid_root, path_read_denied, path_write_denied, FileSystem, within,
  is_absolute, logical_path, same_path, resolve_path,
}

pub data PathAccess : Type 0 where
  read write : PathAccess

pub record DesktopPathPolicy : Type 0 where
  pub read_denied : List FilePath
  pub write_allowed : List FilePath
  pub logical_write_allowed : List FilePath
  pub managed_mappings : List (FilePath × FilePath)

abbrev pub is_within_any : List FilePath → FilePath → Bool
is_within_any roots path = any (within path) roots

abbrev pub is_write : PathAccess → Bool
is_write read = false
is_write write = true

unfoldable pub check : DesktopPathPolicy → FilePath → PathAccess → Result PathError (Unit {0})
unfolding within
check policy path access =
    if is_within_any policy.read_denied path
    then err path_read_denied
    else if is_write access && not (is_within_any policy.write_allowed path)
    then err path_write_denied
    else ok tt

abbrev pub same_component_paths : FilePath → FilePath → Bool
same_component_paths a b = within a b && within b a

-- `roots.push(path)` unless it is there.
abbrev pub push_new : List FilePath → FilePath → List FilePath
push_new roots path = if any (same_component_paths path) roots then roots else roots ++ path ∷ []

abbrev pub push_resolved : List FilePath → Result PathError FilePath → List FilePath
push_resolved roots (ok resolved) = push_new roots resolved
push_resolved roots (err e) = roots

unfoldable pub add_read_root :
    FileSystem → List FilePath → FilePath → Result PathError (List FilePath)
unfolding resolve_path
add_read_root fs roots path =
    if not (is_absolute path)
    then err invalid_root
    else ok (push_resolved (push_new roots path) (resolve_path fs path))

-- The root of a mapping that the path lies in, by its logical or its physical name.
abbrev pub matched_root : FilePath → FilePath → FilePath → Option FilePath
matched_root logical root physical_root =
    if within logical root
    then some root
    else if within logical physical_root
    then some physical_root
    else none

abbrev pub mapped :
    FileSystem
    → FilePath
    → FilePath
    → FilePath
    → FilePath
    → Option FilePath
    → Result PathError (Unit {0})
    → Result PathError (Unit {0})
mapped fs logical resolved root target none rest = rest
mapped fs logical resolved root target (some matched) rest = resolve_path fs root >>= λ actual.
    if not (same_path actual target)
      || not (same_path resolved (target ++ drop (length matched) logical))
    then err path_write_denied
    else ok tt

-- The loop of `check_resolved` over the mappings, and what follows it.
unfoldable pub check_mappings :
    FileSystem
    → FilePath
    → FilePath
    → Result PathError (Unit {0})
    → List (FilePath × FilePath)
    → Result PathError (Unit {0})
unfolding logical_path resolve_path same_path
check_mappings fs logical resolved otherwise [] = otherwise
check_mappings fs logical resolved otherwise ((root, target) ∷ mappings) =
    let rest = check_mappings fs logical resolved otherwise mappings in
    logical_path target >>= λ physical_root.
    mapped fs logical resolved root target (matched_root logical root physical_root) rest

unfoldable pub check_resolved :
    FileSystem → DesktopPathPolicy → FilePath → FilePath → PathAccess → Result PathError (Unit {0})
unfolding check check_mappings
check_resolved fs policy logical resolved access =
    check policy logical read >> check policy resolved read >> logical_path logical >>= λ plain.
    check policy plain read
    >> (if is_write access
        then check_mappings fs plain resolved (check policy resolved write) policy.managed_mappings
        else check policy resolved access)

abbrev pub overlaps : FilePath → FilePath × FilePath → Bool
overlaps logical (root, target) = within logical root || within root logical

unfoldable pub verify_mapping :
    FileSystem
    → DesktopPathPolicy
    → List (FilePath × FilePath)
    → FilePath
    → FilePath
    → Result PathError (FilePath × FilePath)
unfolding resolve_path check
verify_mapping fs policy verified logical physical = logical_path logical >>= λ plain.
    resolve_path fs physical >>= λ target.
    check policy plain read
    >> check policy target read
    >> (if not (is_within_any policy.logical_write_allowed plain)
          || not (fs.is_dir plain)
          || not (fs.is_dir target)
        then err invalid_root
        else (resolve_path fs plain >>= λ actual.
            if not (same_path actual target) || any (overlaps plain) verified
            then err invalid_root
            else ok (plain, target)))

unfoldable pub verify_mappings :
    FileSystem
    → DesktopPathPolicy
    → List (FilePath × FilePath)
    → List (FilePath × FilePath)
    → Result PathError (List (FilePath × FilePath))
unfolding verify_mapping
verify_mappings fs policy verified [] = ok verified
verify_mappings fs policy verified ((logical, physical) ∷ mappings) =
    verify_mapping fs policy verified logical physical >>= λ mapping.
    verify_mappings fs policy (verified ++ mapping ∷ []) mappings

abbrev pub with_mappings :
    DesktopPathPolicy
    → Result PathError (List (FilePath × FilePath))
    → Result PathError (Unit {0}) × DesktopPathPolicy
with_mappings policy (err e) = (err e, policy)
with_mappings policy (ok verified) = (ok tt, record policy { managed_mappings = verified })

unfoldable pub register_mappings :
    FileSystem
    → DesktopPathPolicy
    → List (FilePath × FilePath)
    → Result PathError (Unit {0}) × DesktopPathPolicy
unfolding verify_mappings
register_mappings fs policy mappings = with_mappings policy (verify_mappings fs policy [] mappings)
