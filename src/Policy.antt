-- ===== src/Policy.antt =====
-- crates/daemon/src/policy.rs: which commands of a task the daemon allows. The children have the
-- tests of a command's words, of git's arguments, of the commands that a retry may have run, and the
-- decision; then what an allowed command is.
mod Defs
pub mod Paths
pub mod Words
pub mod Git
pub mod Replay
pub mod Approval
pub mod Permitted
pub mod Decided
pub mod Reached
pub mod Retried
unfoldable pub use Defs.*
