-- ===== src/PathPolicy.antt =====
-- crates/machine-fabric-runtime/src/path_policy.rs: which paths an executor may read and write.
pub mod Paths
pub mod Policy
pub mod Normal
pub mod Safety
pub mod Roots
pub mod Protected
pub mod Access
