-- ===== src/Tasks.antt =====
-- crates/machine-fabric-core/src/task.rs: the definitions stand in the first three modules.
pub mod Table
pub mod Lifecycle
pub mod Upkeep
pub mod Consistent
pub mod Methods
pub mod Cases
pub mod Evolution
pub mod Steps
pub mod History
pub mod Key
pub mod Submission
pub mod Events
pub mod Final
pub mod Page
pub mod Prune
pub mod Restore
