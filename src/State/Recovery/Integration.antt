-- ===== src/State/Recovery/Integration.antt =====
-- crates/core/src/state.rs: the recoveries that ask the Primary for its first integration again.
use worktree_merge_consensus.Prelude.{
  Bool, not, ◌&&◌, ◌||◌, String, some, is_none, is_some, ◌==◌, ◌!=◌, nat_eq, string_eq, option_eq,
  list_eq,
}
use worktree_merge_consensus.Prelude.Results.{guard, ok_or}
use worktree_merge_consensus.State.Defs.{
  Phase, NextAction, RunState, RunDiagnostic, phase_eq, action_eq, status_eq, role_eq, evidence_eq,
  component_eq, integer_eq,
}
use worktree_merge_consensus.State.Exec.{Exec, lift, ◌>>=◌, ◌>>◌, not_retryable, incompatible_state}
use worktree_merge_consensus.State.Recovery.{
  is_terminal, has_approved_plan, lacks_effects, is_primary_diagnostic, revive, finish,
}

abbrev retry_integration : RunState → Exec NextAction
retry_integration s = finish (revive Phase.integrate NextAction.request_primary_integration s)

unfoldable pub retry_blocked_integration_invalid_response : Exec NextAction
retry_blocked_integration_invalid_response s =
    (do
      lift (guard not_retryable (is_terminal "INVALID_RESPONSE" s))
      d ← lift (ok_or s.last_error incompatible_state)
      lift (
          guard not_retryable
            (is_primary_diagnostic s "INVALID_RESPONSE" NextAction.request_primary_integration d))
      lift (guard incompatible_state (has_approved_plan s))
      lift (guard not_retryable (lacks_effects s))
      retry_integration s)
      s

unfoldable pub completed_integration_command_audit_detail : String → Bool
completed_integration_command_audit_detail detail =
    detail == "integration command is not canonically completed with exit code zero"
    || detail == "integration command is outside the frozen execution policy"
    || detail == "controlled patch call appears after the final agent response"
    || detail
      == "patch-success confirmation executed a non-read-only command: git symbolic-ref --short HEAD"
    || detail
      == "patch-success confirmation executed a non-read-only command: /bin/bash -lc 'git symbolic-ref --short HEAD'"
    || detail
      == "patch-success confirmation executed a non-read-only command: git branch --show-current"
    || detail
      == "patch-success confirmation executed a non-read-only command: /bin/bash -lc 'git branch --show-current'"

unfoldable pub retry_blocked_completed_integration_forbidden_operation : Exec NextAction
retry_blocked_completed_integration_forbidden_operation s =
    (do
      lift (guard not_retryable (is_terminal "FORBIDDEN_OPERATION" s))
      d ← lift (ok_or s.last_error incompatible_state)
      lift (
          guard not_retryable (
            is_primary_diagnostic s "FORBIDDEN_OPERATION" NextAction.request_primary_integration d
            && completed_integration_command_audit_detail d.detail))
      lift (guard incompatible_state (has_approved_plan s))
      lift (guard not_retryable (lacks_effects s && is_none s.accepted_result))
      retry_integration s)
      s

unfoldable pub retry_blocked_preintegration_forbidden_operation : Exec NextAction
retry_blocked_preintegration_forbidden_operation s =
    (do
      lift (guard not_retryable (is_terminal "FORBIDDEN_OPERATION" s))
      d ← lift (ok_or s.last_error incompatible_state)
      lift (
          guard not_retryable (
            is_primary_diagnostic s "FORBIDDEN_OPERATION" NextAction.request_primary_integration d))
      lift (guard incompatible_state (has_approved_plan s))
      lift (guard not_retryable (lacks_effects s))
      retry_integration s)
      s

-- The diagnostic of an ephemeral mirror of the Primary that was never sent its turn.
unfoldable pub is_mirror_diagnostic : RunState → RunDiagnostic → Bool
is_mirror_diagnostic s d =
    is_primary_diagnostic s "HISTORY_UNAVAILABLE" NextAction.request_primary_integration d
    && not (
        d.detail != "Source Primary before safe mirror recreation is not idle"
        || is_some d.operation
        || d.thread_id == some s.facts.primary_thread_id
        || d.thread_id == some s.facts.reviewer_thread_id
        || d.participant_binding_mode != some "EPHEMERAL_FORK"
        || d.participant_server != some "worktreeMergeConsensusParticipant")

unfoldable pub retry_blocked_unsent_ephemeral_source_recreation : Exec NextAction
retry_blocked_unsent_ephemeral_source_recreation s =
    (do
      lift (guard not_retryable (is_terminal "HISTORY_UNAVAILABLE" s))
      d ← lift (ok_or s.last_error incompatible_state)
      lift (guard not_retryable (is_mirror_diagnostic s d))
      lift (guard incompatible_state (has_approved_plan s))
      lift (guard not_retryable (lacks_effects s && is_none s.accepted_result))
      retry_integration s)
      s

unfoldable pub retry_blocked_integration_execution_tool_unavailable : Exec NextAction
retry_blocked_integration_execution_tool_unavailable s =
    (do
      lift (guard not_retryable (is_terminal "EXECUTION_TOOL_UNAVAILABLE" s))
      lift (guard incompatible_state (has_approved_plan s))
      lift (guard not_retryable (lacks_effects s))
      retry_integration s)
      s
