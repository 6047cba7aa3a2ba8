-- ===== src/State/Frame/Messages.antt =====
-- Every message keeps what a run's operations never change.
use worktree_merge_consensus.Prelude.{arith}
use worktree_merge_consensus.Json.{Value}
use worktree_merge_consensus.Protocol.{MessageType, ProtocolMessage}
use worktree_merge_consensus.State.Defs.{RunState, Codec}
use worktree_merge_consensus.State.Exec.Keeps.{bind-keeps}
use worktree_merge_consensus.State.Requirements.{require_running, verify_immutable_envelope}
use worktree_merge_consensus.State.Planning.{
  apply_contract, apply_plan, apply_plan_approval, record_plan,
}
use worktree_merge_consensus.State.Integration.{apply_integration, apply_result_approval}
use worktree_merge_consensus.State.Review.{apply_changes_required}
use worktree_merge_consensus.State.Messages.{
  apply_blocked, dispatch, revalidate_message, apply_message,
}
use worktree_merge_consensus.State.Frame.{
  Extends, Extends-refl, IsPrefix-refl, freeze_commands-IsPrefix,
}

module _ (c : Codec) (s : RunState) where
  apply_contract-Extends : (m : ProtocolMessage) → Extends s (apply_contract c m s).1
  unfolding apply_contract
  apply_contract-Extends m = grind (arith, IsPrefix-refl, freeze_commands-IsPrefix)

  pub record_plan-Extends : (payload : Value) → Extends s (record_plan c payload s).1
  unfolding record_plan
  record_plan-Extends payload = grind (arith, IsPrefix-refl, freeze_commands-IsPrefix)

  apply_plan_approval-Extends : (m : ProtocolMessage) → Extends s (apply_plan_approval m s).1
  unfolding apply_plan_approval
  apply_plan_approval-Extends m = ground (arith, IsPrefix-refl s.required_test_commands)

  apply_integration-Extends : (m : ProtocolMessage) → Extends s (apply_integration c m s).1
  unfolding apply_integration
  apply_integration-Extends m = ground (arith, IsPrefix-refl s.required_test_commands)

  apply_changes_required-Extends :
      (m : ProtocolMessage) → Extends s (apply_changes_required c m s).1
  unfolding apply_changes_required
  apply_changes_required-Extends m = ground (arith, IsPrefix-refl s.required_test_commands)

  apply_plan-Extends : (m : ProtocolMessage) → Extends s (apply_plan c m s).1
  unfolding apply_plan
  apply_plan-Extends m = grind (arith, IsPrefix-refl, freeze_commands-IsPrefix)

  apply_result_approval-Extends : (m : ProtocolMessage) → Extends s (apply_result_approval m s).1
  unfolding apply_result_approval
  apply_result_approval-Extends m = ground (arith, IsPrefix-refl s.required_test_commands)

  apply_blocked-Extends : (m : ProtocolMessage) → Extends s (apply_blocked m s).1
  unfolding apply_blocked
  apply_blocked-Extends m = ground (arith, IsPrefix-refl s.required_test_commands)

  dispatch-Extends : (type : MessageType) (m : ProtocolMessage) → Extends s (dispatch c type m s).1
  unfolding dispatch
  dispatch-Extends MessageType.contract_ready m = apply_contract-Extends m
  dispatch-Extends MessageType.plan_ready m = apply_plan-Extends m
  dispatch-Extends MessageType.changes_required m = apply_changes_required-Extends m
  dispatch-Extends MessageType.approved_plan m = apply_plan_approval-Extends m
  dispatch-Extends MessageType.integration_ready m = apply_integration-Extends m
  dispatch-Extends MessageType.approved_result m = apply_result_approval-Extends m
  dispatch-Extends MessageType.blocked m = apply_blocked-Extends m

  pub apply_message-Extends : (m : ProtocolMessage) → Extends s (apply_message c m s).1
  unfolding apply_message
  apply_message-Extends m = bind-keeps (Extends s) (require_running s) _ s (Extends-refl s) λ _ _.
      bind-keeps (Extends s) (revalidate_message c m) _ s (Extends-refl s) λ m' _.
        bind-keeps (Extends s) (verify_immutable_envelope s m') _ s (Extends-refl s)
          λ _ _. dispatch-Extends m'.envelope.message_type m'
