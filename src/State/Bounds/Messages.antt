-- ===== src/State/Bounds/Messages.antt =====
-- Every message keeps a run's counters within their bounds.
use worktree_merge_consensus.Prelude.{◌≡◌, ◌≢◌, arith, none, eqb_sound}
use worktree_merge_consensus.Json.{Value}
use worktree_merge_consensus.Protocol.{MessageType, ProtocolMessage}
use worktree_merge_consensus.State.Defs.{RunState, Codec, Phase, Phase-discrete}
use worktree_merge_consensus.State.Exec.Keeps.{bind-keeps}
use worktree_merge_consensus.State.Requirements.{require_running, verify_immutable_envelope}
use worktree_merge_consensus.State.Planning.{
  apply_contract, apply_plan, apply_plan_approval, record_plan,
}
use worktree_merge_consensus.State.Integration.{apply_integration, apply_result_approval}
use worktree_merge_consensus.State.Review.{apply_changes_required}
use worktree_merge_consensus.State.Messages.{
  apply_blocked, dispatch, revalidate_message, apply_message,
}
use worktree_merge_consensus.State.Soundness.{IsSound}
use worktree_merge_consensus.State.Persisted.{lacks_integration}
use worktree_merge_consensus.State.Bounds.{IsBounded}

integrated_by_verify :
    (s : RunState) → IsSound s → s.phase ≡ Phase.verify → s.integration_sha ≢ none
unfolding lacks_integration
integrated_by_verify s v h = ground arith

module _ (c : Codec) (s : RunState) (integrated : s.phase ≡ Phase.verify → s.integration_sha ≢ none)
    (b : IsBounded s) where
  apply_integration-IsBounded : (m : ProtocolMessage) → IsBounded (apply_integration c m s).1
  unfolding apply_integration
  apply_integration-IsBounded m = ground (
    arith,
    eqb_sound Phase-discrete s.phase Phase.integrate,
    eqb_sound Phase-discrete s.phase Phase.verify,
  )

module _ (c : Codec) (s : RunState) (v : IsSound s) (b : IsBounded s) where
  apply_contract-IsBounded : (m : ProtocolMessage) → IsBounded (apply_contract c m s).1
  unfolding apply_contract
  apply_contract-IsBounded m = ground arith

  pub record_plan-IsBounded : (payload : Value) → IsBounded (record_plan c payload s).1
  unfolding record_plan
  record_plan-IsBounded payload = ground arith

  apply_plan-IsBounded : (m : ProtocolMessage) → IsBounded (apply_plan c m s).1
  unfolding apply_plan
  apply_plan-IsBounded m = ground arith

  apply_plan_approval-IsBounded : (m : ProtocolMessage) → IsBounded (apply_plan_approval m s).1
  unfolding apply_plan_approval
  apply_plan_approval-IsBounded m = ground arith

  apply_changes_required-IsBounded :
      (m : ProtocolMessage) → IsBounded (apply_changes_required c m s).1
  unfolding apply_changes_required lacks_integration
  apply_changes_required-IsBounded m = ground (
    arith,
    eqb_sound Phase-discrete s.phase Phase.plan_review,
    eqb_sound Phase-discrete s.phase Phase.result_review,
  )

  apply_result_approval-IsBounded : (m : ProtocolMessage) → IsBounded (apply_result_approval m s).1
  unfolding apply_result_approval
  apply_result_approval-IsBounded m = ground arith

  apply_blocked-IsBounded : (m : ProtocolMessage) → IsBounded (apply_blocked m s).1
  unfolding apply_blocked
  apply_blocked-IsBounded m = ground arith

  dispatch-IsBounded :
      (type : MessageType) (m : ProtocolMessage) → IsBounded (dispatch c type m s).1
  unfolding dispatch
  dispatch-IsBounded MessageType.contract_ready m = apply_contract-IsBounded m
  dispatch-IsBounded MessageType.plan_ready m = apply_plan-IsBounded m
  dispatch-IsBounded MessageType.changes_required m = apply_changes_required-IsBounded m
  dispatch-IsBounded MessageType.approved_plan m = apply_plan_approval-IsBounded m
  dispatch-IsBounded MessageType.integration_ready m =
      apply_integration-IsBounded c s (integrated_by_verify s v) b m
  dispatch-IsBounded MessageType.approved_result m = apply_result_approval-IsBounded m
  dispatch-IsBounded MessageType.blocked m = apply_blocked-IsBounded m

  pub apply_message-IsBounded : (m : ProtocolMessage) → IsBounded (apply_message c m s).1
  unfolding apply_message
  apply_message-IsBounded m = bind-keeps IsBounded (require_running s) _ s b λ _ _.
      bind-keeps IsBounded (revalidate_message c m) _ s b λ m' _.
        bind-keeps IsBounded (verify_immutable_envelope s m') _ s b
          λ _ _. dispatch-IsBounded m'.envelope.message_type m'
