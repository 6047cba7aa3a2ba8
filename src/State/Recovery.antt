-- ===== src/State/Recovery.antt =====
-- crates/core/src/state.rs: what the recoveries of a blocked run share, their guards and their end.
-- The children hold the recoveries, by the step that the run goes back to.
pub mod Planning
pub mod Integration
pub mod Verification
pub mod Correction
pub mod Outcomes
use worktree_merge_consensus.Prelude.{
  ℕ, Bool, true, false, not, ◌&&◌, ◌||◌, String, Option, none, some, List, [], ◌∷◌, any, is_nil,
  is_none, is_some, leb, ltb, length, if◌then◌else◌, ◌==◌, ◌!=◌, nat_eq, string_eq, option_eq,
  list_eq,
}
use worktree_merge_consensus.Prelude.Results.{Result, ok, err, guard, ok_or}
use worktree_merge_consensus.Text.{is_blank, starts_with, ends_with}
use worktree_merge_consensus.Json.{Value, Fields, get, as_array, as_str, as_object, end, string}
use worktree_merge_consensus.Json.Canonical.{canonical_json_hash}
use worktree_merge_consensus.State.Defs.{
  Phase, NextAction, RunStatus, Role, RunState, RunFacts, RunDiagnostic, TestEvidence,
  VerificationFailure, Codec, phase_eq, action_eq, status_eq, role_eq, evidence_eq, component_eq,
  integer_eq, PathBuf, pos,
}
use worktree_merge_consensus.State.Exec.{
  Check, Exec, Code, lift, write, ◌>>=◌, ◌>>◌, continue, not_retryable, incompatible_state, pure,
}
use worktree_merge_consensus.State.Evidence.{
  and_then, parse_test_evidence, failed, validate_complete_test_evidence, validate_test_evidence,
}
use worktree_merge_consensus.State.Persisted.{validate_persisted, map_err}

-- The status, phase and action of a blocked run, and its reason.
unfoldable pub is_terminal : String → RunState → Bool
is_terminal reason s = not (
    s.status != RunStatus.blocked
    || s.phase != Phase.blocked
    || s.next_action != NextAction.stop
    || s.reason_code != some reason)

unfoldable pub is_blocked_for : String → RunState → Bool
is_blocked_for reason s = not (s.status != RunStatus.blocked || s.reason_code != some reason)

unfoldable pub has_approved_plan : RunState → Bool
has_approved_plan s = not (
    not s.plan_approved
    || is_none s.current_plan_payload
    || is_none s.plan_approval_payload
    || is_none s.target_integration_branch)

-- No integration is recorded.
unfoldable pub lacks_result : RunState → Bool
lacks_result s = not (
    is_some s.integration_branch
    || is_some s.integration_sha
    || is_some s.current_integration_payload)

-- Nor is there a worktree or evidence of one.
unfoldable pub lacks_effects : RunState → Bool
lacks_effects s = not (
    is_some s.integration_branch
    || is_some s.integration_sha
    || is_some s.current_integration_payload
    || is_some s.verification_worktree
    || not (is_nil s.test_evidence))

-- An integration that waits for its first evidence.
unfoldable pub awaits_evidence : RunState → Bool
awaits_evidence s = not (
    not s.plan_approved
    || is_none s.integration_branch
    || is_none s.integration_sha
    || is_none s.current_integration_payload
    || is_none s.verification_worktree
    || is_nil s.required_test_commands
    || not (is_nil s.test_evidence)
    || is_some s.accepted_result)

unfoldable pub diagnostic_matches_primary : RunFacts → RunDiagnostic → Bool
diagnostic_matches_primary facts d =
    d.thread_id == some facts.primary_thread_id
    || (d.source_thread_id == some facts.primary_thread_id
        && d.effective_thread_id == d.thread_id
        && is_some d.participant_binding_generation
        && is_some d.participant_binding_mode
        && is_some d.participant_server)

-- A diagnostic of the bound Primary's turn for an action.
unfoldable pub is_primary_diagnostic : RunState → String → NextAction → RunDiagnostic → Bool
is_primary_diagnostic s code action d = not (
    d.code != code
    || d.action != action
    || d.role != some Role.primary
    || not (diagnostic_matches_primary s.facts d))

unfoldable pub revive : Phase → NextAction → RunState → RunState
revive phase action s = record s {
  status = RunStatus.running;
  phase = phase;
  next_action = action;
  reason_code = none;
  last_error = none;
}

-- The new state is written before it is validated.
unfoldable pub finish : RunState → Exec NextAction
finish t = do write t; lift (validate_persisted t); pure t.next_action
