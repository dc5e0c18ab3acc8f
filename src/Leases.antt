-- ===== src/Leases.antt =====
-- crates/machine-fabric-core/src/lease.rs
pub mod Table
pub mod Cases
pub mod Consistent
pub mod Fences
pub mod Holding
