-- ===== src/State/Integration.antt =====
-- crates/core/src/state.rs: the integration, its verification and the approval of the result.
use worktree_merge_consensus.Prelude.{
  Bool, true, false, not, ◌||◌, String, Option, none, some, List, [], any, is_nil, is_none, leb,
  if◌then◌else◌, ◌==◌, ◌!=◌, nat_eq, string_eq, option_eq,
}
use worktree_merge_consensus.Prelude.Results.{guard, ok_or}
use worktree_merge_consensus.Json.{Value, get, as_array}
use worktree_merge_consensus.Protocol.{MessagePhase, ProtocolMessage, message_phase_eq}
use worktree_merge_consensus.State.Defs.{
  Phase, NextAction, RunState, TestEvidence, Codec, phase_eq, action_eq,
}
use worktree_merge_consensus.State.Exec.{
  Exec, lift, ◌>>=◌, ◌>>◌, invalid_response, plan_not_approved, wrong_phase,
  unexpected_integration_branch, stale_integration_sha,
}
use worktree_merge_consensus.State.Evidence.{
  and_then, parse_test_evidence, failed, validate_complete_test_evidence,
}
use worktree_merge_consensus.State.Requirements.{
  require_phase, require_round, require_plan_revision, require_current_integration,
}
use worktree_merge_consensus.State.Feedback.{machine_feedback}
use worktree_merge_consensus.State.Transitions.{increment, become, blocked_state}

-- A target branch, where one is frozen, that differs from the one reported.
off_target : Option String → String → Bool
off_target none branch = false
off_target (some target) branch = target != branch

-- Evidence that the integration turn reports about itself.
self_reports : Value → Bool
self_reports payload = elim (and_then (get payload "test_evidence") as_array) [
  | none ↦ false
  | some evidence ↦ not (is_nil evidence)
]

-- The first integration starts a new count of rounds.
integrated_state : Bool → String → String → Value → RunState → RunState
integrated_state true branch sha payload s = record s {
  integration_branch = some branch;
  integration_sha = some sha;
  current_integration_payload = some payload;
  test_evidence = [];
  verification_worktree = none;
  result_approved_sha = none;
  phase = Phase.verify;
  round = 1;
  last_review_fingerprint = none;
  unchanged_review_streak = 0;
  next_action = NextAction.request_primary_verification;
}
integrated_state false branch sha payload s = record s {
  integration_branch = some branch;
  integration_sha = some sha;
  current_integration_payload = some payload;
  test_evidence = [];
  verification_worktree = none;
  result_approved_sha = none;
  phase = Phase.verify;
  next_action = NextAction.request_primary_verification;
}

-- `apply_integration` where the phase is INTEGRATE.
unfoldable pub create_integration : ProtocolMessage → String → String → Exec NextAction
unfolding self_reports integrated_state
create_integration m branch sha s =
    (do
      lift (guard wrong_phase (m.envelope.phase == MessagePhase.integrate))
      lift (guard invalid_response (not (self_reports m.payload)))
      lift (guard stale_integration_sha (s.integration_sha != some sha))
      become (integrated_state (is_none s.integration_sha) branch sha m.payload s))
      s

-- Failed evidence is kept, with the feedback for the next integration.
verification_failed_state : List TestEvidence → Value → RunState → RunState
verification_failed_state evidence payload s = record s {
  test_evidence = evidence;
  current_integration_payload = some payload;
  result_approved_sha = none;
  last_result_feedback = some (machine_feedback payload);
}

next_round_state : RunState → RunState
next_round_state s = record s {
  round = increment s.round;
  phase = Phase.integrate;
  next_action = NextAction.request_primary_integration;
}

verified_state : List TestEvidence → Value → RunState → RunState
verified_state evidence payload s = record s {
  test_evidence = evidence;
  current_integration_payload = some payload;
  result_approved_sha = none;
  phase = Phase.result_review;
  next_action = NextAction.request_reviewer_result_verdict;
}

-- The state after failed evidence: blocked at the limit of the rounds, or one round on.
failed_outcome : RunState → RunState
unfolding blocked_state next_round_state
failed_outcome s =
    if leb s.max_review_rounds s.round then blocked_state "ROUND_LIMIT" s else next_round_state s

evidence_outcome : List TestEvidence → Value → RunState → RunState
unfolding verified_state verification_failed_state failed_outcome
evidence_outcome evidence payload s =
    if any failed evidence
    then failed_outcome (verification_failed_state evidence payload s)
    else verified_state evidence payload s

module _ (c : Codec) where
  -- `apply_integration` where the phase is VERIFY.
  unfoldable pub record_verification : ProtocolMessage → Exec NextAction
  unfolding evidence_outcome
  record_verification m s =
      (do
        lift (guard wrong_phase (m.envelope.phase == MessagePhase.verify))
        lift (require_current_integration s m)
        evidence ← lift (parse_test_evidence c m.payload)
        lift (validate_complete_test_evidence s evidence)
        become (evidence_outcome evidence m.payload s))
        s

  integrate_or_verify : Bool → ProtocolMessage → String → String → Exec NextAction
  unfolding create_integration record_verification
  integrate_or_verify true m branch sha = create_integration m branch sha
  integrate_or_verify false m branch sha = record_verification m

  unfoldable pub apply_integration : ProtocolMessage → Exec NextAction
  unfolding off_target integrate_or_verify
  apply_integration m s =
      (do
        lift (guard wrong_phase (s.phase == Phase.integrate || s.phase == Phase.verify))
        lift (require_round m s.round)
        lift (require_plan_revision s m)
        lift (guard plan_not_approved s.plan_approved)
        branch ← lift (ok_or m.envelope.integration_branch invalid_response)
        lift (
            guard unexpected_integration_branch
              (not (off_target s.target_integration_branch branch)))
        sha ← lift (ok_or m.envelope.integration_sha invalid_response)
        integrate_or_verify (s.phase == Phase.integrate) m branch sha)
        s

unfoldable pub apply_result_approval : ProtocolMessage → Exec NextAction
apply_result_approval m s =
    (do
      lift (require_phase s Phase.result_review)
      lift (require_round m s.round)
      lift (require_plan_revision s m)
      lift (require_current_integration s m)
      become (record s {
        result_approved_sha = m.envelope.integration_sha;
        next_action = NextAction.revalidate_and_accept;
      }))
      s
