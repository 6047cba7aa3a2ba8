-- ===== src/Store/Reached.antt =====
-- crates/daemon/src/store.rs over the runs of crates/core/src/state.rs: a run that is reached is
-- stored.
use worktree_merge_consensus.Prelude.{nat_eq}
use worktree_merge_consensus.State.Defs.{Codec}
