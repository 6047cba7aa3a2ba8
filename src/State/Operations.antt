-- ===== src/State/Operations.antt =====
-- crates/core/src/state.rs, and the workspace of a verification of crates/daemon/src/coordinator.rs:
-- every operation on a run's state as one function, and the states that a run reaches by them.
use worktree_merge_consensus.Prelude.{ℕ, Bool, true, ◌==◌, String, List, ◌≡◌, ◌!=◌}
use worktree_merge_consensus.Json.{Value}
use worktree_merge_consensus.Protocol.{ProtocolMessage}
use worktree_merge_consensus.State.Defs.{
  RunStatus, RunState, RunFacts, RunDiagnostic, PathBuf, action_eq, Codec, NextAction, new,
  status_eq,
}
use worktree_merge_consensus.State.Exec.{Exec, Check}
use worktree_merge_consensus.State.Transitions.{block, request_integration}
use worktree_merge_consensus.State.Planning.{record_plan}
use worktree_merge_consensus.State.Messages.{apply_message}
use worktree_merge_consensus.State.Control.{
  configure_integration, pause, record_error, wait_for_thread, thread_became_idle, resume, cancel,
  mark_incompatible, accept_after_revalidation,
}
use worktree_merge_consensus.State.Workspace.{prepare_verification_workspace}
use worktree_merge_consensus.State.Recovery.Planning.{
  retry_blocked_invalid_test_command, retry_blocked_preintegration_invalid_response,
}
use worktree_merge_consensus.State.Recovery.Integration.{
  retry_blocked_integration_invalid_response,
  retry_blocked_completed_integration_forbidden_operation,
  retry_blocked_preintegration_forbidden_operation,
  retry_blocked_unsent_ephemeral_source_recreation,
  retry_blocked_integration_execution_tool_unavailable,
}
use worktree_merge_consensus.State.Recovery.Verification.{
  retry_blocked_verification_without_execution, recover_v025_verification_completion_collision,
  retry_blocked_verification_environment_unavailable,
  retry_blocked_reviewer_reasoning_lifecycle_compatibility,
}
use worktree_merge_consensus.State.Recovery.Correction.{
  retry_blocked_corrective_patch_tool_unavailable, retry_blocked_result_review_patch_not_authorized,
}

-- The recoveries of a blocked run, by the method's name.
pub data Retry : Type 0 where
  invalid_test_command preintegration_invalid_response integration_invalid_response : Retry
  completed_integration_forbidden_operation preintegration_forbidden_operation : Retry
  unsent_ephemeral_source_recreation integration_execution_tool_unavailable : Retry
  verification_without_execution verification_completion_collision : Retry
  verification_environment_unavailable reviewer_reasoning_lifecycle : Retry
  corrective_patch_tool_unavailable result_review_patch_not_authorized : Retry

pub data Operation : Type 0 where
  configuring : String → List String → Operation
  delivering : ProtocolMessage → Operation
  recording_plan : Value → Operation
  requesting_integration accepting waiting idling resuming cancelling : Operation
  pausing blocking marking_incompatible : String → Operation
  recording_error : RunDiagnostic → Operation
  retrying : Retry → Operation
  preparing : (ℕ → String → PathBuf) → Check PathBuf → Operation

-- `block`, `cancel` and `mark_incompatible` do not look at the status themselves. Over an accepted
-- run they give a state that the store refuses to save. The coordinator prepares the workspace of a
-- verification only for the action that asks for it.
unfoldable pub is_allowed : Operation → RunState → Bool
is_allowed (blocking reason) s = s.status != RunStatus.accepted
is_allowed (marking_incompatible reason) s = s.status != RunStatus.accepted
is_allowed cancelling s = s.status != RunStatus.accepted
is_allowed (preparing verification_path provided) s =
    s.next_action == NextAction.request_primary_verification
is_allowed _ s = true

module _ (c : Codec) where
  unfoldable pub retry : Retry → Exec NextAction
  retry invalid_test_command = retry_blocked_invalid_test_command
  retry preintegration_invalid_response = retry_blocked_preintegration_invalid_response
  retry integration_invalid_response = retry_blocked_integration_invalid_response
  retry completed_integration_forbidden_operation =
      retry_blocked_completed_integration_forbidden_operation
  retry preintegration_forbidden_operation = retry_blocked_preintegration_forbidden_operation
  retry unsent_ephemeral_source_recreation = retry_blocked_unsent_ephemeral_source_recreation
  retry integration_execution_tool_unavailable =
      retry_blocked_integration_execution_tool_unavailable
  retry verification_without_execution = retry_blocked_verification_without_execution
  retry verification_completion_collision = recover_v025_verification_completion_collision
  retry verification_environment_unavailable = retry_blocked_verification_environment_unavailable
  retry reviewer_reasoning_lifecycle = retry_blocked_reviewer_reasoning_lifecycle_compatibility
  retry corrective_patch_tool_unavailable = retry_blocked_corrective_patch_tool_unavailable c
  retry result_review_patch_not_authorized = retry_blocked_result_review_patch_not_authorized c

  -- The state after an operation, also where it returns an error.
  unfoldable pub perform : Operation → RunState → RunState
  perform (configuring target commands) s = (configure_integration target commands s).1
  perform (delivering m) s = (apply_message c m s).1
  perform (recording_plan payload) s = (record_plan c payload s).1
  perform requesting_integration s = (request_integration s).1
  perform accepting s = (accept_after_revalidation s).1
  perform waiting s = (wait_for_thread s).1
  perform idling s = (thread_became_idle s).1
  perform resuming s = (resume s).1
  perform cancelling s = cancel s
  perform (pausing reason) s = (pause reason s).1
  perform (blocking reason) s = (block reason s).1
  perform (marking_incompatible reason) s = mark_incompatible reason s
  perform (recording_error diagnostic) s = record_error diagnostic s
  perform (retrying kind) s = (retry kind s).1
  perform (preparing verification_path provided) s =
      (prepare_verification_workspace verification_path provided s).1

  -- The states that a run reaches from its start.
  pub data Reach (facts : RunFacts) : RunState → Type 0 where
    start : Reach facts (new facts)
    next :
        (op : Operation) {s : RunState}
        → is_allowed op s ≡ true
        → Reach facts s
        → Reach facts (perform op s)
