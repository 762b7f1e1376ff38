-- ===== src/Machine.antt =====
-- The OVHMachine controller (internal/controller/ovhmachine_controller.go).
pub mod Scope
pub mod Members
pub mod Existing
pub mod Create
pub mod Creation
pub mod Normal
pub mod Delete
pub mod Frames
pub mod Gates
pub mod Readiness
pub mod Deletion
pub mod Lifecycle
pub mod Refinement
pub mod Runs
pub mod Liveness
