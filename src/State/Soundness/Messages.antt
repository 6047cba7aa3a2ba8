-- ===== src/State/Soundness/Messages.antt =====
-- Every message keeps a run's state sound, and so does every control operation.
use worktree_merge_consensus.Prelude.{◌≡◌, ◌≢◌, arith, String}
use worktree_merge_consensus.Protocol.{MessageType, ProtocolMessage}
use worktree_merge_consensus.State.Defs.{RunState, Codec, RunStatus}
use worktree_merge_consensus.State.Persisted.{lacks_integration}
use worktree_merge_consensus.State.Exec.Keeps.{bind-keeps}
use worktree_merge_consensus.State.Requirements.{require_running, verify_immutable_envelope}
use worktree_merge_consensus.State.Requirements.Facts.{require_running-ok}
use worktree_merge_consensus.State.Transitions.{block}
use worktree_merge_consensus.State.Messages.{
  apply_blocked, dispatch, revalidate_message, apply_message,
}
use worktree_merge_consensus.State.Soundness.{IsSound}
use worktree_merge_consensus.State.Soundness.Planning.{
  apply_contract-IsSound, apply_plan-IsSound, apply_plan_approval-IsSound,
}
use worktree_merge_consensus.State.Soundness.Integration.{
  apply_integration-IsSound, apply_result_approval-IsSound, apply_changes_required-IsSound,
}

module _ (s : RunState) (v : IsSound s) where
  pub block-IsSound : (reason : String) → s.status ≢ RunStatus.accepted → IsSound (block reason s).1
  unfolding block lacks_integration
  block-IsSound reason o = ground arith

  apply_blocked-IsSound :
      (m : ProtocolMessage) → s.status ≡ RunStatus.running → IsSound (apply_blocked m s).1
  unfolding apply_blocked lacks_integration
  apply_blocked-IsSound m r = ground arith

  dispatch-IsSound :
      (c : Codec) (type : MessageType) (m : ProtocolMessage)
      → s.status ≡ RunStatus.running
      → IsSound (dispatch c type m s).1
  unfolding dispatch
  dispatch-IsSound c MessageType.contract_ready m r = apply_contract-IsSound c m s r v
  dispatch-IsSound c MessageType.plan_ready m r = apply_plan-IsSound c m s v
  dispatch-IsSound c MessageType.changes_required m r = apply_changes_required-IsSound m s r v c
  dispatch-IsSound c MessageType.approved_plan m r = apply_plan_approval-IsSound m s r v
  dispatch-IsSound c MessageType.integration_ready m r = apply_integration-IsSound m s r v c
  dispatch-IsSound c MessageType.approved_result m r = apply_result_approval-IsSound m s r v
  dispatch-IsSound c MessageType.blocked m r = apply_blocked-IsSound m r

  pub apply_message-IsSound : (c : Codec) (m : ProtocolMessage) → IsSound (apply_message c m s).1
  unfolding apply_message
  apply_message-IsSound c m = bind-keeps IsSound (require_running s) _ s v λ _ running.
      bind-keeps IsSound (revalidate_message c m) _ s v λ m' _.
        bind-keeps IsSound (verify_immutable_envelope s m') _ s v
          λ _ _. dispatch-IsSound c m'.envelope.message_type m' (require_running-ok s running)
