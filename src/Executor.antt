-- ===== src/Executor.antt =====
-- crates/machine-fabric-runtime/src/executor.rs: the executor of a node.
pub mod Capacity
pub mod Permits
pub mod Fences
pub mod Issue
pub mod Authority
