-- ===== src/PathPolicy/Paths.antt =====
-- crates/machine-fabric-runtime/src/path_policy.rs, for the Unix targets: paths as the components that
-- `Path::components` gives, and their normal forms. The file system is a parameter.
use machine_fabric.Base.{
  String, Bool, true, false, ◌&&◌, not, Option, none, some, List, [], ◌∷◌, ◌++◌, any, if◌then◌else◌,
  Result, ok, err, ◌==◌,
}

pub data Component : Type 0 where
  root_dir cur_dir parent_dir : Component
  normal : String → Component

abbrev pub FilePath : Type 0
FilePath = List Component

pub data PathError : Type 0 where
  path_invalid path_read_denied path_write_denied invalid_root : PathError
  invalid_params path_outside_allowed_roots : PathError

-- What the code asks of the file system, at one moment.
pub record FileSystem : Type 0 where
  pub exists : FilePath → Bool
  pub canonicalize : FilePath → Option FilePath
  pub is_dir : FilePath → Bool

abbrev pub same_component : Component → Component → Bool
same_component root_dir root_dir = true
same_component root_dir _ = false
same_component cur_dir cur_dir = true
same_component cur_dir _ = false
same_component parent_dir parent_dir = true
same_component parent_dir _ = false
same_component (normal s) (normal t) = s == t
same_component (normal s) _ = false

-- `within`, which is `path.starts_with(root)`.
unfoldable pub within : FilePath → FilePath → Bool
within path [] = true
within [] (expected ∷ root) = false
within (actual ∷ path) (expected ∷ root) = same_component actual expected && within path root

abbrev pub is_absolute : FilePath → Bool
is_absolute (root_dir ∷ path) = true
is_absolute _ = false

abbrev pub reverse_onto : FilePath → FilePath → FilePath
reverse_onto [] path = path
reverse_onto (c ∷ cs) path = reverse_onto cs (c ∷ path)

-- The loop of `logical_path`; the result so far is in reverse, so that its last component is the first.
unfoldable pub logical_loop : FilePath → FilePath → Result PathError FilePath
logical_loop result [] = ok (reverse_onto result [])
logical_loop result (root_dir ∷ path) = logical_loop (root_dir ∷ []) path
logical_loop result (cur_dir ∷ path) = logical_loop result path
logical_loop (normal name ∷ result) (parent_dir ∷ path) = logical_loop result path
logical_loop [] (parent_dir ∷ path) = err path_invalid
logical_loop (root_dir ∷ result) (parent_dir ∷ path) = err path_invalid
logical_loop (cur_dir ∷ result) (parent_dir ∷ path) = err path_invalid
logical_loop (parent_dir ∷ result) (parent_dir ∷ path) = err path_invalid
logical_loop result (normal name ∷ path) = logical_loop (normal name ∷ result) path

unfoldable pub logical_path : FilePath → Result PathError FilePath
unfolding logical_loop
logical_path path = if not (is_absolute path) then err path_invalid else logical_loop [] path

abbrev pub both_within : Result PathError FilePath → Result PathError FilePath → Bool
both_within (ok left) (ok right) = within left right && within right left
both_within (ok left) (err e) = false
both_within (err e) right = false

unfoldable pub same_path : FilePath → FilePath → Bool
unfolding logical_path within
same_path left right = both_within (logical_path left) (logical_path right)

abbrev pub is_parent : Component → Bool
is_parent parent_dir = true
is_parent _ = false

abbrev pub or_invalid : Option FilePath → Result PathError FilePath
or_invalid none = err path_invalid
or_invalid (some path) = ok path

abbrev pub push_all : Result PathError FilePath → FilePath → Result PathError FilePath
push_all (ok resolved) missing = ok (resolved ++ missing)
push_all (err e) missing = err e

-- The loop of `resolve_path`: the ancestor in reverse, and the names that are missing below it.
unfoldable pub resolve_ancestor : FileSystem → FilePath → FilePath → Result PathError FilePath
resolve_ancestor fs [] missing =
    if fs.exists [] then push_all (or_invalid (fs.canonicalize [])) missing else err path_invalid
resolve_ancestor fs (normal name ∷ ancestor) missing =
    let path = reverse_onto (normal name ∷ ancestor) [] in
    let above = resolve_ancestor fs ancestor (normal name ∷ missing) in
    if fs.exists path then push_all (or_invalid (fs.canonicalize path)) missing else above
resolve_ancestor fs (root_dir ∷ ancestor) missing =
    let path = reverse_onto (root_dir ∷ ancestor) [] in
    if fs.exists path
    then push_all (or_invalid (fs.canonicalize path)) missing
    else err path_invalid
resolve_ancestor fs (cur_dir ∷ ancestor) missing =
    let path = reverse_onto (cur_dir ∷ ancestor) [] in
    if fs.exists path
    then push_all (or_invalid (fs.canonicalize path)) missing
    else err path_invalid
resolve_ancestor fs (parent_dir ∷ ancestor) missing =
    let path = reverse_onto (parent_dir ∷ ancestor) [] in
    if fs.exists path
    then push_all (or_invalid (fs.canonicalize path)) missing
    else err path_invalid

unfoldable pub resolve_path : FileSystem → FilePath → Result PathError FilePath
unfolding resolve_ancestor
resolve_path fs path =
    if not (is_absolute path)
    then err path_invalid
    else if any is_parent path
    then err path_invalid
    else if fs.exists path
    then or_invalid (fs.canonicalize path)
    else resolve_ancestor fs (reverse_onto path []) []
