-- ===== src/State/Soundness/Integration.antt =====
-- The handlers of integrations and reviews keep a run's state sound.
use worktree_merge_consensus.Prelude.{◌≡◌, arith, eqb_sound}
use worktree_merge_consensus.Protocol.{ProtocolMessage}
use worktree_merge_consensus.State.Defs.{RunState, Codec, Phase, RunStatus, Phase-discrete}
use worktree_merge_consensus.State.Persisted.{lacks_integration}
use worktree_merge_consensus.State.Evidence.{validate_complete_test_evidence}
use worktree_merge_consensus.State.Requirements.Facts.{
  require_phase-ok, require_current_integration-ok,
}
use worktree_merge_consensus.State.Integration.{apply_integration, apply_result_approval}
use worktree_merge_consensus.State.Review.{apply_changes_required}
use worktree_merge_consensus.State.Soundness.{IsSound}

module _ (m : ProtocolMessage) (s : RunState) (r : s.status ≡ RunStatus.running)
    (v : IsSound s) where
  pub apply_result_approval-IsSound : IsSound (apply_result_approval m s).1
  unfolding apply_result_approval lacks_integration
  apply_result_approval-IsSound =
      ground (arith, require_phase-ok s Phase.result_review, require_current_integration-ok s m)

  pub apply_changes_required-IsSound : (c : Codec) → IsSound (apply_changes_required c m s).1
  unfolding apply_changes_required lacks_integration
  apply_changes_required-IsSound c = ground (
    arith,
    eqb_sound Phase-discrete s.phase Phase.plan_review,
    eqb_sound Phase-discrete s.phase Phase.result_review,
  )

  pub apply_integration-IsSound : (c : Codec) → IsSound (apply_integration c m s).1
  unfolding apply_integration lacks_integration validate_complete_test_evidence
  apply_integration-IsSound c = ground (
    arith,
    eqb_sound Phase-discrete s.phase Phase.integrate,
    eqb_sound Phase-discrete s.phase Phase.verify,
  )
