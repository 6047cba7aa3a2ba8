-- ===== src/State/Atomic.antt =====
-- An operation on a run's state that returns an error has changed nothing.
use worktree_merge_consensus.Prelude.{◌≡◌, arith, true, eqb, eqb_complete}
use worktree_merge_consensus.Prelude.Results.{err}
use worktree_merge_consensus.Protocol.{MessageType, ProtocolMessage}
use worktree_merge_consensus.State.Defs.{RunState, Codec, RunStatus, RunStatus-discrete}
use worktree_merge_consensus.State.Exec.{Code}
use worktree_merge_consensus.State.Exec.Keeps.{IsAtomic, bind-IsAtomic}
use worktree_merge_consensus.State.Requirements.{
  require_running, require_phase, verify_immutable_envelope,
}
use worktree_merge_consensus.State.Requirements.Facts.{require_running-ok}
use worktree_merge_consensus.State.Planning.{apply_contract, apply_plan, apply_plan_approval}
use worktree_merge_consensus.State.Integration.{apply_integration, apply_result_approval}
use worktree_merge_consensus.State.Review.{apply_changes_required}
use worktree_merge_consensus.State.Messages.{
  apply_blocked, dispatch, revalidate_message, apply_message,
}

running_passes :
    (s : RunState)
    → s.status ≡ RunStatus.running
    → eqb RunStatus-discrete s.status RunStatus.running ≡ true
running_passes s r = eqb_complete RunStatus-discrete _ _ r

module _ (c : Codec) (s : RunState) where
  apply_contract-IsAtomic : (m : ProtocolMessage) → IsAtomic (apply_contract c m s) s
  unfolding apply_contract
  apply_contract-IsAtomic m e h = ground arith

  apply_plan-IsAtomic : (m : ProtocolMessage) → IsAtomic (apply_plan c m s) s
  unfolding apply_plan
  apply_plan-IsAtomic m e h = ground arith

  -- The approval writes before it asks for the integration, which cannot fail in a running state.
  apply_plan_approval-IsAtomic :
      (m : ProtocolMessage) → s.status ≡ RunStatus.running → IsAtomic (apply_plan_approval m s) s
  unfolding apply_plan_approval require_running require_phase
  apply_plan_approval-IsAtomic m r e h = ground (arith, running_passes s r)

  apply_integration-IsAtomic : (m : ProtocolMessage) → IsAtomic (apply_integration c m s) s
  unfolding apply_integration
  apply_integration-IsAtomic m e h = ground arith

  apply_result_approval-IsAtomic : (m : ProtocolMessage) → IsAtomic (apply_result_approval m s) s
  unfolding apply_result_approval
  apply_result_approval-IsAtomic m e h = ground arith

  apply_changes_required-IsAtomic :
      (m : ProtocolMessage) → IsAtomic (apply_changes_required c m s) s
  unfolding apply_changes_required
  apply_changes_required-IsAtomic m e h = ground arith

  apply_blocked-IsAtomic : (m : ProtocolMessage) → IsAtomic (apply_blocked m s) s
  unfolding apply_blocked
  apply_blocked-IsAtomic m e h = ground arith

  dispatch-IsAtomic :
      (type : MessageType) (m : ProtocolMessage)
      → s.status ≡ RunStatus.running
      → IsAtomic (dispatch c type m s) s
  unfolding dispatch
  dispatch-IsAtomic MessageType.contract_ready m r = apply_contract-IsAtomic m
  dispatch-IsAtomic MessageType.plan_ready m r = apply_plan-IsAtomic m
  dispatch-IsAtomic MessageType.changes_required m r = apply_changes_required-IsAtomic m
  dispatch-IsAtomic MessageType.approved_plan m r = apply_plan_approval-IsAtomic m r
  dispatch-IsAtomic MessageType.integration_ready m r = apply_integration-IsAtomic m
  dispatch-IsAtomic MessageType.approved_result m r = apply_result_approval-IsAtomic m
  dispatch-IsAtomic MessageType.blocked m r = apply_blocked-IsAtomic m

  -- A message that is refused, by whatever check, leaves the run exactly as it was.
  pub apply_message-IsAtomic :
      (m : ProtocolMessage) (e : Code)
      → (apply_message c m s).0 ≡ err e
      → (apply_message c m s).1 ≡ s
  unfolding apply_message
  apply_message-IsAtomic m = bind-IsAtomic (require_running s) _ s λ _ running.
      bind-IsAtomic (revalidate_message c m) _ s λ m' _.
        bind-IsAtomic (verify_immutable_envelope s m') _ s
          λ _ _. dispatch-IsAtomic m'.envelope.message_type m' (require_running-ok s running)
