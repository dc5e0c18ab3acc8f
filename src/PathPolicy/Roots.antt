-- ===== src/PathPolicy/Roots.antt =====
-- crates/machine-fabric-runtime/src/path_policy.rs: `DesktopPathPolicy::new`, for Linux. The values of
-- the three variables of the environment are an argument, as paths.
use machine_fabric.Base.{
  Option, none, some, List, [], ◌∷◌, ◌++◌, if◌then◌else◌, Result, ok, err, ◌>>=◌,
}
use machine_fabric.PathPolicy.Paths.{
  normal, FilePath, PathError, invalid_root, FileSystem, within, is_absolute, logical_path,
  resolve_path,
}
use machine_fabric.PathPolicy.Policy.{DesktopPathPolicy, add_read_root}

-- The credentials under a home that are never read.
abbrev pub protected : List FilePath
protected =
    (normal ".ssh" ∷ [])
    ∷ (normal ".gnupg" ∷ [])
    ∷ (normal ".aws" ∷ [])
    ∷ (normal ".azure" ∷ [])
    ∷ (normal ".kube" ∷ [])
    ∷ (normal ".docker" ∷ [])
    ∷ (normal ".config" ∷ normal "gcloud" ∷ [])
    ∷ (normal ".config" ∷ normal "gh" ∷ [])
    ∷ (normal ".netrc" ∷ [])
    ∷ (normal ".npmrc" ∷ [])
    ∷ []

abbrev pub writable : List FilePath
writable =
    (normal "Code" ∷ [])
    ∷ (normal "Workspace" ∷ [])
    ∷ (normal "Downloads" ∷ [])
    ∷ (normal "Documents" ∷ [])
    ∷ (normal "Desktop" ∷ [])
    ∷ (normal "Pictures" ∷ [])
    ∷ (normal ".cache" ∷ [])
    ∷ (normal ".local" ∷ normal "state" ∷ [])
    ∷ (normal ".local" ∷ normal "share" ∷ [])
    ∷ (normal ".config" ∷ [])
    ∷ []

abbrev pub canonical_home : Option FilePath → Result PathError FilePath
canonical_home none = err invalid_root
canonical_home (some home) = ok home

-- The loop that fills `read_denied`.
unfoldable pub deny_each :
    FileSystem
    → FilePath
    → FilePath
    → List FilePath
    → List FilePath
    → Result PathError (List FilePath)
unfolding add_read_root
deny_each fs original_home home roots [] = ok roots
deny_each fs original_home home roots (relative ∷ relatives) =
    add_read_root fs roots (original_home ++ relative) >>= λ roots'.
    add_read_root fs roots' (home ++ relative) >>= λ roots''.
    deny_each fs original_home home roots'' relatives

-- `write_allowed` and `logical_write_allowed`.
abbrev pub Allowed : Type 0
Allowed = List FilePath × List FilePath

-- The loop that fills them.
unfoldable pub allow_each :
    FileSystem → FilePath → FilePath → Allowed → List FilePath → Result PathError Allowed
unfolding resolve_path logical_path
allow_each fs original_home home allowed [] = ok allowed
allow_each fs original_home home (write_allowed, logical_allowed) (relative ∷ relatives) =
    resolve_path fs (home ++ relative) >>= λ root.
    logical_path (original_home ++ relative) >>= λ logical.
    allow_each fs original_home home (write_allowed ++ root ∷ [], logical_allowed ++ logical ∷ [])
      relatives

abbrev pub allow_root : FilePath → Allowed → FilePath → Result PathError Allowed
allow_root home (write_allowed, logical_allowed) root =
    if within root home
    then (logical_path root >>= λ logical.
        ok (write_allowed ++ root ∷ [], logical_allowed ++ logical ∷ []))
    else ok (write_allowed, logical_allowed)

-- One variable of the environment.
unfoldable pub allow_variable :
    FileSystem → FilePath → Allowed → Option FilePath → Result PathError Allowed
unfolding resolve_path within logical_path
allow_variable fs home allowed none = ok allowed
allow_variable fs home allowed (some root) =
    if is_absolute root
    then (resolve_path fs root >>= λ resolved. allow_root home allowed resolved)
    else ok allowed

unfoldable pub allow_variables :
    FileSystem → FilePath → Allowed → List (Option FilePath) → Result PathError Allowed
unfolding allow_variable
allow_variables fs home allowed [] = ok allowed
allow_variables fs home allowed (variable ∷ variables) =
    allow_variable fs home allowed variable >>= λ allowed'.
    allow_variables fs home allowed' variables

unfoldable pub new :
    FileSystem → List (Option FilePath) → FilePath → Result PathError DesktopPathPolicy
unfolding deny_each allow_each allow_variables
new fs variables original_home = canonical_home (fs.canonicalize original_home) >>= λ home.
    deny_each fs original_home home [] protected >>= λ read_denied.
    allow_each fs original_home home ([], []) writable >>= λ roots.
    allow_variables fs home roots variables >>= λ allowed. ok (record {
      read_denied = read_denied;
      write_allowed = allowed.0;
      logical_write_allowed = allowed.1;
      managed_mappings = [];
    })
