-- ===== src/State/Soundness/Stored.antt =====
-- A sound state passes the check of the store, so no operation is refused by it.
use worktree_merge_consensus.Prelude.{◌≡◌, arith, eqb_sound, eqb_complete}
use native.Mathlib.Decide.{ℕ_discrete}
use worktree_merge_consensus.Prelude.Results.{ok}
use worktree_merge_consensus.State.Defs.{RunState, RunStatus, RunStatus-discrete}
use worktree_merge_consensus.State.Persisted.{validate_persisted, needs_integration, needs_success}
use worktree_merge_consensus.State.Evidence.{
  validate_test_evidence, validate_complete_test_evidence,
}
use worktree_merge_consensus.State.Soundness.{IsSound}

-- The store accepts every sound state.
pub validate_persisted-IsSound : (s : RunState) → IsSound s → validate_persisted s ≡ ok tt
unfolding validate_persisted needs_integration needs_success validate_test_evidence
    validate_complete_test_evidence
validate_persisted-IsSound s v = ground (
  arith,
  eqb_complete ℕ_discrete s.schema_version 2,
  eqb_sound RunStatus-discrete s.status RunStatus.accepted,
  eqb_complete RunStatus-discrete s.status RunStatus.accepted,
)
