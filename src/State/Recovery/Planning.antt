-- ===== src/State/Recovery/Planning.antt =====
-- crates/core/src/state.rs: the recoveries that go back to the contracts or to the plan.
use worktree_merge_consensus.Prelude.{◌==◌, nat_eq, string_eq, option_eq, list_eq}
use worktree_merge_consensus.Prelude.Results.{ok, err, guard, ok_or}
use worktree_merge_consensus.State.Defs.{
  Phase, NextAction, phase_eq, action_eq, status_eq, role_eq, evidence_eq, component_eq, integer_eq,
}
use worktree_merge_consensus.State.Exec.{
  Check, Exec, lift, ◌>>=◌, ◌>>◌, not_retryable, incompatible_state,
}
use worktree_merge_consensus.State.Recovery.{is_blocked_for, lacks_result, revive, finish}

-- The phase of a turn that declares test commands.
unfoldable pub declaration_phase : NextAction → Check Phase
declaration_phase NextAction.request_primary_contract = ok Phase.contract
declaration_phase NextAction.request_reviewer_contract = ok Phase.contract
declaration_phase NextAction.request_primary_plan = ok Phase.plan_review
declaration_phase _ = err not_retryable

-- The phase of a turn that only reads.
unfoldable pub read_only_phase : NextAction → Check Phase
read_only_phase NextAction.request_primary_contract = ok Phase.contract
read_only_phase NextAction.request_reviewer_contract = ok Phase.contract
read_only_phase NextAction.request_primary_plan = ok Phase.plan_review
read_only_phase NextAction.request_reviewer_plan_verdict = ok Phase.plan_review
read_only_phase _ = err not_retryable

unfoldable pub retry_blocked_invalid_test_command : Exec NextAction
retry_blocked_invalid_test_command s =
    (do
      lift (guard not_retryable (is_blocked_for "INVALID_TEST_COMMAND" s))
      diagnostic ← lift (ok_or s.last_error incompatible_state)
      lift (guard incompatible_state (diagnostic.code == "INVALID_TEST_COMMAND"))
      phase ← lift (declaration_phase diagnostic.action)
      lift (guard not_retryable (lacks_result s))
      finish (revive phase diagnostic.action s))
      s

unfoldable pub retry_blocked_preintegration_invalid_response : Exec NextAction
retry_blocked_preintegration_invalid_response s =
    (do
      lift (guard not_retryable (is_blocked_for "INVALID_RESPONSE" s))
      diagnostic ← lift (ok_or s.last_error incompatible_state)
      lift (guard incompatible_state (diagnostic.code == "INVALID_RESPONSE"))
      phase ← lift (read_only_phase diagnostic.action)
      lift (guard not_retryable (lacks_result s))
      finish (revive phase diagnostic.action s))
      s
