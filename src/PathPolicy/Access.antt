-- ===== src/PathPolicy/Access.antt =====
-- crates/machine-fabric-runtime/src/executor.rs: `checked_path`, through which the calls of an executor
-- get their paths. The parameter is what `as_str` gives for it, as a path.
use machine_fabric.Base.{
  ◌≡◌, refl, Bool, true, false, ◌&&◌, not, ◌⊎◌, Option, none, some, List, any, Exists,
  if◌then◌else◌, Result, ok, err, ◌>>=◌, ◌>>◌, bind-ok, seq-ok, guard-ok, ok_unique, subst,
}
use machine_fabric.PathPolicy.Paths.{
  FilePath, PathError, path_invalid, invalid_params, path_outside_allowed_roots, FileSystem, within,
  logical_path, resolve_path,
}
use machine_fabric.PathPolicy.Policy.{
  PathAccess, read, write, DesktopPathPolicy, is_within_any, check, check_resolved,
}
use machine_fabric.PathPolicy.Normal.{logical_path-IsPlain}
use machine_fabric.PathPolicy.Safety.{Redirects, check_resolved_safe}

-- `must_exist`, and the path behind the symbolic links.
unfoldable pub located : FileSystem → Bool → FilePath → Result PathError FilePath
unfolding resolve_path
located fs must_exist path =
    if must_exist && not (fs.exists path) then err path_invalid else resolve_path fs path

abbrev pub within_policy :
    FileSystem → DesktopPathPolicy → Bool → PathAccess → FilePath → Result PathError FilePath
within_policy fs policy must_exist access plain = located fs must_exist plain >>= λ checked.
    check_resolved fs policy plain checked access >> ok checked

unfoldable pub within_roots :
    FileSystem → List FilePath → Bool → FilePath → Result PathError FilePath
unfolding located
within_roots fs allowed_roots must_exist path = located fs must_exist path >>= λ checked.
    if any (within checked) allowed_roots then ok checked else err path_outside_allowed_roots

unfoldable pub checked_path :
    FileSystem
    → Option DesktopPathPolicy
    → List FilePath
    → Option FilePath
    → Bool
    → PathAccess
    → Result PathError FilePath
unfolding located within_roots check check_resolved logical_path
checked_path fs desktop_policy allowed_roots none must_exist access = err invalid_params
checked_path fs none allowed_roots (some path) must_exist access =
    within_roots fs allowed_roots must_exist path
checked_path fs (some policy) allowed_roots (some path) must_exist access =
    check policy path read >> logical_path path >>= λ plain.
    within_policy fs policy must_exist access plain

located-ok :
    (fs : FileSystem) (must_exist : Bool) (path found : FilePath)
    → located fs must_exist path ≡ ok found
    → resolve_path fs path ≡ ok found
unfolding located
located-ok fs must_exist path found h =
    guard-ok (must_exist && not (fs.exists path)) path_invalid (resolve_path fs path) found h

-- Where a write lands.
abbrev pub Lands : FileSystem → DesktopPathPolicy → FilePath → FilePath → Type 0
Lands fs policy plain checked =
    (is_within_any policy.write_allowed checked ≡ true)
    ⊎ Exists (Redirects fs plain checked) policy.managed_mappings

abbrev pub Granted : FileSystem → DesktopPathPolicy → FilePath → FilePath → Type 0
Granted fs policy plain checked =
    (resolve_path fs plain ≡ ok checked)
    × (is_within_any policy.read_denied plain ≡ false)
    × (is_within_any policy.read_denied checked ≡ false)
    × Lands fs policy plain checked

-- A path that an executor with a policy gives a call to write: its logical path is in no protected
-- root, and neither is what it leads to, which is the path that the call gets. That path is in a write
-- root, or it is the place that the logical path names below the target of a managed mapping.
pub checked_path_safe :
    (fs : FileSystem) (policy : DesktopPathPolicy) (allowed_roots : List FilePath) (path : FilePath)
    (must_exist : Bool) (checked : FilePath)
    → checked_path fs (some policy) allowed_roots (some path) must_exist write ≡ ok checked
    → (plain : FilePath) × (logical_path path ≡ ok plain) × Granted fs policy plain checked
unfolding checked_path
checked_path_safe fs policy allowed_roots path must_exist checked h =
    let first = check policy path read >> logical_path path in
    let (plain, read_ok, h') = bind-ok first _ checked h in
    let (_, plain_ok) = seq-ok (check policy path read) (logical_path path) plain read_ok in
    let (found, located_ok, h'') = bind-ok (located fs must_exist plain) _ checked h' in
    let (allowed, same_ok) =
      seq-ok (check_resolved fs policy plain found write) (ok found) checked h'' in
    let same : found ≡ checked = ok_unique (ok found) found checked refl same_ok in
    let (again, again_ok, denied, found_denied, _, lands) =
      check_resolved_safe fs policy plain found allowed in
    let normal_form = (logical_path-IsPlain path plain plain_ok).1 in
    let lands' =
      subst (λ q. Lands fs policy q found)
        (ok_unique (logical_path plain) again plain again_ok normal_form) lands in
    (
      plain,
      plain_ok,
      subst (Granted fs policy plain) same
          (located-ok fs must_exist plain found located_ok, denied, found_denied, lands'),
    )
