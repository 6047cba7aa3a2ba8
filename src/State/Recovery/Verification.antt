-- ===== src/State/Recovery/Verification.antt =====
-- crates/core/src/state.rs: the recoveries that go back to the verification of an integration, or to
-- the review of a verified one.
use worktree_merge_consensus.Prelude.{
  Bool, not, ◌&&◌, ◌||◌, some, is_nil, is_none, is_some, ◌==◌, ◌!=◌, nat_eq, string_eq, option_eq,
  list_eq,
}
use worktree_merge_consensus.Prelude.Results.{guard, ok_or}
use worktree_merge_consensus.Text.{starts_with, ends_with}
use worktree_merge_consensus.State.Defs.{
  Phase, NextAction, Role, RunState, RunDiagnostic, phase_eq, action_eq, status_eq, role_eq,
  evidence_eq, component_eq, integer_eq,
}
use worktree_merge_consensus.State.Exec.{Exec, lift, ◌>>=◌, ◌>>◌, not_retryable, incompatible_state}
use worktree_merge_consensus.State.Evidence.{validate_test_evidence}
use worktree_merge_consensus.State.Recovery.{
  is_terminal, awaits_evidence, is_primary_diagnostic, revive, finish,
}

abbrev retry_verification : RunState → Exec NextAction
retry_verification s = finish (revive Phase.verify NextAction.request_primary_verification s)

unfoldable pub retry_blocked_verification_without_execution : Exec NextAction
retry_blocked_verification_without_execution s =
    (do
      lift (guard not_retryable (is_terminal "TEST_FAILURE" s))
      d ← lift (ok_or s.last_error incompatible_state)
      lift (
          guard not_retryable (
            is_primary_diagnostic s "TEST_FAILURE" NextAction.request_primary_verification d
            && d.detail
              == "verification must execute each frozen command exactly once and no other command"))
      lift (guard not_retryable (awaits_evidence s))
      retry_verification s)
      s

unfoldable pub recover_v025_verification_completion_collision : Exec NextAction
recover_v025_verification_completion_collision s =
    (do
      lift (guard not_retryable (is_terminal "DATABASE_ERROR" s))
      d ← lift (ok_or s.last_error incompatible_state)
      lift (
          guard not_retryable (
            is_primary_diagnostic s "DATABASE_ERROR" NextAction.request_primary_verification d
            && d.detail
              == "database error: UNIQUE constraint failed: turn_event_completions.turn_record_id"
            && is_none d.operation))
      lift (guard not_retryable (awaits_evidence s))
      retry_verification s)
      s

unfoldable pub retry_blocked_verification_environment_unavailable : Exec NextAction
retry_blocked_verification_environment_unavailable s =
    (do
      lift (guard not_retryable (is_terminal "CARGO_UNAVAILABLE" s))
      lift (guard not_retryable (awaits_evidence s))
      retry_verification s)
      s

unfoldable pub is_verdict_diagnostic : RunState → RunDiagnostic → Bool
is_verdict_diagnostic s d = not (
    d.code != "INCOMPATIBLE_STATE"
    || d.action != NextAction.request_reviewer_result_verdict
    || d.role != some Role.reviewer
    || d.thread_id != some s.facts.reviewer_thread_id)

-- An integration with its evidence, not yet approved.
unfoldable pub awaits_verdict : RunState → Bool
awaits_verdict s = not (
    not s.plan_approved
    || is_none s.integration_branch
    || is_none s.integration_sha
    || is_none s.current_integration_payload
    || is_none s.verification_worktree
    || is_nil s.test_evidence
    || is_some s.accepted_result
    || is_some s.result_approved_sha)

unfoldable pub retry_blocked_reviewer_reasoning_lifecycle_compatibility : Exec NextAction
retry_blocked_reviewer_reasoning_lifecycle_compatibility s =
    (do
      lift (guard not_retryable (is_terminal "INCOMPATIBLE_STATE" s))
      d ← lift (ok_or s.last_error incompatible_state)
      lift (guard not_retryable (is_verdict_diagnostic s d))
      lift (
          guard not_retryable (
            starts_with d.detail "INCOMPATIBLE_STATE: turn "
            && ends_with d.detail " completed before all item lifecycle events were persisted"))
      lift (guard not_retryable (awaits_verdict s))
      lift (validate_test_evidence s)
      finish (revive Phase.result_review NextAction.request_reviewer_result_verdict s))
      s
