-- ===== src/State.antt =====
-- crates/core/src/state.rs: the state of a run and the operations that change it.
pub mod Defs
pub mod Equality
pub mod Exec
pub mod Evidence
pub mod Persisted
pub mod Requirements
pub mod Feedback
pub mod Transitions
pub mod Planning
pub mod Integration
pub mod Review
pub mod Messages
pub mod Control
pub mod Recovery
pub mod Workspace
pub mod Operations
pub mod Soundness
pub mod Atomic
pub mod Frame
pub mod Steering
pub mod Accepted
pub mod Freshness
pub mod Commands
pub mod Liveness
pub mod Final
pub mod Approvals
pub mod Outcomes
pub mod Progress
pub mod Consent
pub mod Bounds
