-- ===== src/Tests/PathPolicy.antt =====
-- A policy of one protected root, two write roots and one managed mapping.
use machine_fabric.Base.{
  ◌≡◌, refl, true, false, some, [], ◌∷◌, ◌++◌, length, nat_eq, ltb, if◌then◌else◌, ok, err,
}
use machine_fabric.PathPolicy.Paths.{
  root_dir, cur_dir, parent_dir, normal, FilePath, path_invalid, path_outside_allowed_roots,
  invalid_root, path_read_denied, path_write_denied, FileSystem, logical_path, same_path,
  resolve_path,
}
use machine_fabric.PathPolicy.Policy.{
  read, write, DesktopPathPolicy, check_resolved, register_mappings,
}
use machine_fabric.PathPolicy.Normal.{IsPlain, logical_path-IsPlain}
use machine_fabric.Base.{All, map, none}
use machine_fabric.PathPolicy.Paths.{within}
use machine_fabric.PathPolicy.Roots.{protected, writable, new}
use machine_fabric.PathPolicy.Protected.{Protects, new-Protects}
use machine_fabric.PathPolicy.Access.{Granted, checked_path, checked_path_safe}

abbrev home : FilePath
home = root_dir ∷ normal "home" ∷ []

abbrev code : FilePath
code = root_dir ∷ normal "home" ∷ normal "code" ∷ []

abbrev work : FilePath
work = root_dir ∷ normal "home" ∷ normal "code" ∷ normal "work" ∷ []

abbrev secret : FilePath
secret = root_dir ∷ normal "home" ∷ normal ".ssh" ∷ []

abbrev store : FilePath
store = root_dir ∷ normal "data" ∷ []

abbrev fs : FileSystem
fs = record {
  exists = λ path. ltb (length path) 5;
  canonicalize = λ path. some (if nat_eq (length path) 4 then store else path);
  is_dir = λ path. true;
}

abbrev policy : DesktopPathPolicy
policy = record {
  read_denied = secret ∷ [];
  write_allowed = code ∷ [];
  logical_write_allowed = code ∷ [];
  managed_mappings = (work, store) ∷ [];
}

abbrev note : FilePath
note = root_dir ∷ normal "home" ∷ normal "code" ∷ normal "work" ∷ normal "note" ∷ []

abbrev untidy : FilePath
untidy = root_dir ∷ normal "home" ∷ cur_dir ∷ normal ".ssh" ∷ parent_dir ∷ normal "code" ∷ []

tidy : logical_path untidy ≡ ok code
unfolding logical_path
tidy = refl

above_root : logical_path (root_dir ∷ parent_dir ∷ []) ≡ err path_invalid
unfolding logical_path
above_root = refl

mapped_resolves : resolve_path fs note ≡ ok (store ++ normal "note" ∷ [])
unfolding resolve_path
mapped_resolves = refl

mapped_write : check_resolved fs policy note (store ++ normal "note" ∷ []) write ≡ ok tt
unfolding check_resolved
mapped_write = refl

moved_write :
    check_resolved fs policy note (store ++ normal "other" ∷ []) write ≡ err path_write_denied
unfolding check_resolved
moved_write = refl

secret_read : check_resolved fs policy secret secret read ≡ err path_read_denied
unfolding check_resolved
secret_read = refl

overlapping_refused :
    (register_mappings fs policy ((work, store) ∷ (work, store) ∷ [])).0 ≡ err invalid_root
unfolding register_mappings logical_path same_path resolve_path
overlapping_refused = refl

logical_path-IsPlain_example : IsPlain code × (logical_path code ≡ ok code)
logical_path-IsPlain_example = logical_path-IsPlain untidy code tidy

same_untidy : same_path untidy code ≡ true
unfolding same_path
same_untidy = refl

-- A file system without links, where all is there.
abbrev plain_fs : FileSystem
plain_fs = record { exists = λ path. true; canonicalize = λ path. some path; is_dir = λ path. true }

abbrev started_policy : DesktopPathPolicy
started_policy = record {
  read_denied = map (λ r. home ++ r) protected;
  write_allowed = map (λ r. home ++ r) writable;
  logical_write_allowed = map (λ r. home ++ r) writable;
  managed_mappings = [];
}

starts : new plain_fs (none ∷ some store ∷ none ∷ []) home ≡ ok started_policy
unfolding new within
starts = refl

new-Protects_example :
    (root : FilePath) × (plain_fs.canonicalize home ≡ some root)
    × All (Protects started_policy home root) protected
new-Protects_example =
    new-Protects plain_fs (none ∷ some store ∷ none ∷ []) home started_policy starts

checked_note :
    checked_path fs (some policy) [] (some note) false write ≡ ok (store ++ normal "note" ∷ [])
unfolding checked_path
checked_note = refl

outside_roots :
    checked_path fs none (code ∷ []) (some home) false read ≡ err path_outside_allowed_roots
unfolding checked_path within
outside_roots = refl

checked_path_safe_example :
    (plain : FilePath) × (logical_path note ≡ ok plain)
    × Granted fs policy plain (store ++ normal "note" ∷ [])
checked_path_safe_example =
    checked_path_safe fs policy [] note false (store ++ normal "note" ∷ []) checked_note
