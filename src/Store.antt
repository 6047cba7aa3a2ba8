-- ===== src/Store.antt =====
-- crates/daemon/src/store.rs: the tables in which the daemon keeps its runs, and what it does with
-- them.
mod Defs
mod Txn
pub mod Codec
pub mod Runs
pub mod Turns
pub mod Verification
pub mod Archive
pub mod Bindings
pub mod Patches
pub mod TurnEvents
pub mod Reactivation
pub mod Calls
pub mod OperationFrames
pub mod Frames
pub mod StateFrames
pub mod Refinement
pub mod Locks
pub mod Claims
pub mod Once
pub mod Reached
pub mod Patched
pub mod Evidence
pub mod StaleItems
pub mod FinalItems
pub mod BindingFrames
pub mod OneActive
unfoldable pub use Defs.*
unfoldable pub use Txn.*
