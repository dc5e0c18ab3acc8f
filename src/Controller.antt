-- ===== src/Controller.antt =====
-- crates/machine-fabric-runtime/src/controller.rs: the controller of a fabric.
pub mod Json
pub mod Validation
pub mod Inside
pub mod Checks
pub mod Right
pub mod Kinds
pub mod Demands
pub mod Conforms
