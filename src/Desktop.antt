-- ===== src/Desktop.antt =====
-- crates/machine-fabric-runtime/src/desktop.rs: the queue of sessions of one interactive desktop.
pub mod Queue
pub mod Gate
pub mod Promotion
pub mod Commands
pub mod Dispatch
pub mod Live
pub mod Stable
pub mod Runs
pub mod Exclusive
pub mod Ages
pub mod Grants
pub mod Idle
pub mod Turns
pub mod Permission
pub mod Admission
