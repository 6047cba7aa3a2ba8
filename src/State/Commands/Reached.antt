-- ===== src/State/Commands/Reached.antt =====
-- In every state that a run reaches the frozen commands stand once each, and none is blank.
use worktree_merge_consensus.Prelude.{◌≡◌, arith, refl, true, String, List}
use worktree_merge_consensus.Json.{Value}
use worktree_merge_consensus.Protocol.{MessageType, ProtocolMessage}
use worktree_merge_consensus.State.Defs.{RunState, RunFacts, Codec, new}
use worktree_merge_consensus.State.Exec.Keeps.{bind-keeps}
use worktree_merge_consensus.State.Requirements.{require_running, verify_immutable_envelope}
use worktree_merge_consensus.State.Planning.{
  apply_contract, apply_plan, apply_plan_approval, record_plan,
}
use worktree_merge_consensus.State.Integration.{apply_integration, apply_result_approval}
use worktree_merge_consensus.State.Review.{apply_changes_required}
use worktree_merge_consensus.State.Messages.{
  apply_blocked, dispatch, revalidate_message, apply_message,
}
use worktree_merge_consensus.State.Control.{configure_integration, accept_after_revalidation}
use worktree_merge_consensus.State.Workspace.{prepare-keeps}
use worktree_merge_consensus.State.Operations.{
  Operation, configuring, delivering, recording_plan, requesting_integration, accepting, waiting,
  idling, resuming, cancelling, pausing, blocking, marking_incompatible, recording_error, retrying,
  preparing, perform, Reach, start, next,
}
use worktree_merge_consensus.State.Steering.{Steers-keeps, is_steering, perform-Steers}
use worktree_merge_consensus.State.Commands.{
  IsFrozen, IsFrozen-nil, freeze_commands-IsFrozen, configured-IsFrozen,
  string_array_field-nonblank,
}

abbrev HasFrozen : RunState → Type 0
HasFrozen s = IsFrozen s.required_test_commands

module _ (c : Codec) (s : RunState) (f : IsFrozen s.required_test_commands) where
  configure_integration-IsFrozen :
      (target : String) (commands : List String)
      → HasFrozen (configure_integration target commands s).1
  unfolding configure_integration
  configure_integration-IsFrozen target commands = ground (arith, configured-IsFrozen commands)

  apply_contract-IsFrozen : (m : ProtocolMessage) → HasFrozen (apply_contract c m s).1
  unfolding apply_contract
  apply_contract-IsFrozen m = grind (arith, freeze_commands-IsFrozen, string_array_field-nonblank)

  record_plan-IsFrozen : (payload : Value) → HasFrozen (record_plan c payload s).1
  unfolding record_plan
  record_plan-IsFrozen payload =
      grind (arith, freeze_commands-IsFrozen, string_array_field-nonblank)

  apply_plan-IsFrozen : (m : ProtocolMessage) → HasFrozen (apply_plan c m s).1
  unfolding apply_plan
  apply_plan-IsFrozen m = grind (arith, record_plan-IsFrozen m.payload)

  apply_plan_approval-IsFrozen : (m : ProtocolMessage) → HasFrozen (apply_plan_approval m s).1
  unfolding apply_plan_approval
  apply_plan_approval-IsFrozen m = ground arith

  apply_integration-IsFrozen : (m : ProtocolMessage) → HasFrozen (apply_integration c m s).1
  unfolding apply_integration
  apply_integration-IsFrozen m = ground arith

  apply_changes_required-IsFrozen :
      (m : ProtocolMessage) → HasFrozen (apply_changes_required c m s).1
  unfolding apply_changes_required
  apply_changes_required-IsFrozen m = ground arith

  apply_result_approval-IsFrozen : (m : ProtocolMessage) → HasFrozen (apply_result_approval m s).1
  unfolding apply_result_approval
  apply_result_approval-IsFrozen m = ground arith

  apply_blocked-IsFrozen : (m : ProtocolMessage) → HasFrozen (apply_blocked m s).1
  unfolding apply_blocked
  apply_blocked-IsFrozen m = ground arith

  dispatch-IsFrozen : (type : MessageType) (m : ProtocolMessage) → HasFrozen (dispatch c type m s).1
  unfolding dispatch
  dispatch-IsFrozen MessageType.contract_ready m = apply_contract-IsFrozen m
  dispatch-IsFrozen MessageType.plan_ready m = apply_plan-IsFrozen m
  dispatch-IsFrozen MessageType.changes_required m = apply_changes_required-IsFrozen m
  dispatch-IsFrozen MessageType.approved_plan m = apply_plan_approval-IsFrozen m
  dispatch-IsFrozen MessageType.integration_ready m = apply_integration-IsFrozen m
  dispatch-IsFrozen MessageType.approved_result m = apply_result_approval-IsFrozen m
  dispatch-IsFrozen MessageType.blocked m = apply_blocked-IsFrozen m

  apply_message-IsFrozen : (m : ProtocolMessage) → HasFrozen (apply_message c m s).1
  unfolding apply_message
  apply_message-IsFrozen m = bind-keeps HasFrozen (require_running s) _ s f λ _ _.
      bind-keeps HasFrozen (revalidate_message c m) _ s f λ m' _.
        bind-keeps HasFrozen (verify_immutable_envelope s m') _ s f
          λ _ _. dispatch-IsFrozen m'.envelope.message_type m'

  accept_after_revalidation-IsFrozen : HasFrozen (accept_after_revalidation s).1
  unfolding accept_after_revalidation
  accept_after_revalidation-IsFrozen = ground arith

  steering-IsFrozen : (op : Operation) → is_steering op ≡ true → HasFrozen (perform c op s)
  steering-IsFrozen op h =
      Steers-keeps HasFrozen s (perform c op s) (λ status phase action reason error. f)
        (perform-Steers s c op h)

  perform-IsFrozen : (op : Operation) → HasFrozen (perform c op s)
  unfolding perform
  perform-IsFrozen (configuring target commands) = configure_integration-IsFrozen target commands
  perform-IsFrozen (delivering m) = apply_message-IsFrozen m
  perform-IsFrozen (recording_plan payload) = record_plan-IsFrozen payload
  perform-IsFrozen accepting = accept_after_revalidation-IsFrozen
  perform-IsFrozen requesting_integration = steering-IsFrozen requesting_integration refl
  perform-IsFrozen waiting = steering-IsFrozen waiting refl
  perform-IsFrozen idling = steering-IsFrozen idling refl
  perform-IsFrozen resuming = steering-IsFrozen resuming refl
  perform-IsFrozen cancelling = steering-IsFrozen cancelling refl
  perform-IsFrozen (pausing reason) = steering-IsFrozen (pausing reason) refl
  perform-IsFrozen (blocking reason) = steering-IsFrozen (blocking reason) refl
  perform-IsFrozen (marking_incompatible reason) =
      steering-IsFrozen (marking_incompatible reason) refl
  perform-IsFrozen (recording_error d) = steering-IsFrozen (recording_error d) refl
  perform-IsFrozen (retrying kind) = steering-IsFrozen (retrying kind) refl
  perform-IsFrozen (preparing path provided) = prepare-keeps HasFrozen path provided s f λ w. f

-- In every state that a run reaches no two of its frozen commands are equal and none is blank.
pub Reach-IsFrozen :
    (c : Codec) (facts : RunFacts) (s : RunState)
    → Reach c facts s
    → IsFrozen s.required_test_commands
unfolding new
Reach-IsFrozen c facts s start = IsFrozen-nil
Reach-IsFrozen c facts s (next op {s = t} a r) =
    perform-IsFrozen c t (Reach-IsFrozen c facts t r) op
