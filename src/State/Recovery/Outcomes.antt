-- ===== src/State/Recovery/Outcomes.antt =====
-- crates/core/src/state.rs: what each recovery of a blocked run does. It refuses and leaves the state
-- as it was, or its guards hold and it ends by `finish` on the state that it writes.
use worktree_merge_consensus.Prelude.{
  ◌≡◌, ◌⊎◌, Bool, inl, inr, ◌&&◌, ◌==◌, string_eq, not, some, none, is_none, any, Option-cases,
  Bool-cases, refl, arith, true, false,
}
use worktree_merge_consensus.Prelude.Results.{ok, err, Result, is_ok}
use worktree_merge_consensus.State.Defs.{
  RunDiagnostic, RunState, Codec, Phase, NextAction, RunStatus,
}
use worktree_merge_consensus.State.Exec.{Check, Code}
use worktree_merge_consensus.State.Evidence.{validate_test_evidence, failed}
use worktree_merge_consensus.State.Recovery.{
  is_blocked_for, is_terminal, lacks_result, lacks_effects, has_approved_plan, awaits_evidence,
  revive, finish,
}
use worktree_merge_consensus.State.Recovery.Planning.{
  retry_blocked_invalid_test_command, retry_blocked_preintegration_invalid_response,
  declaration_phase, read_only_phase,
}
use worktree_merge_consensus.State.Recovery.Integration.{
  retry_blocked_integration_invalid_response,
  retry_blocked_completed_integration_forbidden_operation,
  retry_blocked_preintegration_forbidden_operation,
  retry_blocked_unsent_ephemeral_source_recreation,
  retry_blocked_integration_execution_tool_unavailable,
}
use worktree_merge_consensus.State.Recovery.Verification.{
  retry_blocked_verification_without_execution, recover_v025_verification_completion_collision,
  retry_blocked_verification_environment_unavailable,
  retry_blocked_reviewer_reasoning_lifecycle_compatibility, awaits_verdict,
}
use worktree_merge_consensus.State.Recovery.Correction.{
  retry_blocked_corrective_patch_tool_unavailable, retry_blocked_result_review_patch_not_authorized,
  is_correctable,
}

-- An error that leaves the state as it was, or the guards `b` passed and the end of a recovery.
abbrev pub Recovers : RunState → Bool → RunState → Result Code NextAction × RunState → Type 0
Recovers s b t r = ((is_ok r.0 ≡ false) × (r.1 ≡ s)) ⊎ ((b ≡ true) × (r ≡ finish t s))

-- The same where the step to go back to is read off the diagnostic.
abbrev pub RecoversTo :
    RunState → Bool → (NextAction → Check Phase) → Result Code NextAction × RunState → Type 0
RecoversTo s b phase_of r =
    ((is_ok r.0 ≡ false) × (r.1 ≡ s))
    ⊎ ((d : RunDiagnostic) × (phase : Phase) × (s.last_error ≡ some d)
        × (phase_of d.action ≡ ok phase)
        × (b ≡ true)
        × (r ≡ finish (revive phase d.action s) s))

abbrev pub integrate_again : RunState → RunState
integrate_again = revive Phase.integrate NextAction.request_primary_integration

abbrev pub verify_again : RunState → RunState
verify_again = revive Phase.verify NextAction.request_primary_verification

abbrev pub review_again : RunState → RunState
review_again = revive Phase.result_review NextAction.request_reviewer_result_verdict

-- The state of a corrective recovery, which leaves the last error alone.
abbrev pub corrected : RunState → RunState
corrected s = record s {
  status = RunStatus.running;
  phase = Phase.integrate;
  next_action = NextAction.request_primary_integration;
  reason_code = none;
}

Phase-cases : (r : Check Phase) → (is_ok r ≡ false) ⊎ ((phase : Phase) × (r ≡ ok phase))
Phase-cases (ok phase) = inr (phase, refl)
Phase-cases (err e) = inl refl

module _ (s : RunState) where
  pub invalid_test_command-RecoversTo :
      RecoversTo s
        (is_blocked_for "INVALID_TEST_COMMAND" s && lacks_result s)
        declaration_phase
        (retry_blocked_invalid_test_command s)
  unfolding retry_blocked_invalid_test_command
  invalid_test_command-RecoversTo = elim (Option-cases s.last_error) [
    | inl missing ↦ inl (ground arith, ground arith)
    | inr (d, found) ↦ elim (Phase-cases (declaration_phase d.action)) [
      | inl refused ↦ inl (ground arith, ground arith)
      | inr (phase, p) ↦
          elim (Bool-cases (
            (is_blocked_for "INVALID_TEST_COMMAND" s && lacks_result s)
            && d.code == "INVALID_TEST_COMMAND")) [
              | inl passed ↦ inr (d, phase, found, p, ground arith, ground arith)
              | inr failed ↦ inl (ground arith, ground arith)
            ]
    ]
  ]

  pub preintegration_invalid_response-RecoversTo :
      RecoversTo s
        (is_blocked_for "INVALID_RESPONSE" s && lacks_result s)
        read_only_phase
        (retry_blocked_preintegration_invalid_response s)
  unfolding retry_blocked_preintegration_invalid_response
  preintegration_invalid_response-RecoversTo = elim (Option-cases s.last_error) [
    | inl missing ↦ inl (ground arith, ground arith)
    | inr (d, found) ↦ elim (Phase-cases (read_only_phase d.action)) [
      | inl refused ↦ inl (ground arith, ground arith)
      | inr (phase, p) ↦
          elim (Bool-cases (
            (is_blocked_for "INVALID_RESPONSE" s && lacks_result s)
            && d.code == "INVALID_RESPONSE")) [
              | inl passed ↦ inr (d, phase, found, p, ground arith, ground arith)
              | inr failed ↦ inl (ground arith, ground arith)
            ]
    ]
  ]

  pub integration_invalid_response-Recovers :
      Recovers s
        (is_terminal "INVALID_RESPONSE" s && has_approved_plan s && lacks_effects s)
        (integrate_again s)
        (retry_blocked_integration_invalid_response s)
  unfolding retry_blocked_integration_invalid_response
  integration_invalid_response-Recovers = ground arith

  pub completed_integration_forbidden_operation-Recovers :
      Recovers s
        (is_terminal "FORBIDDEN_OPERATION" s
          && has_approved_plan s
          && (lacks_effects s && is_none s.accepted_result))
        (integrate_again s)
        (retry_blocked_completed_integration_forbidden_operation s)
  unfolding retry_blocked_completed_integration_forbidden_operation
  completed_integration_forbidden_operation-Recovers = ground arith

  pub preintegration_forbidden_operation-Recovers :
      Recovers s
        (is_terminal "FORBIDDEN_OPERATION" s && has_approved_plan s && lacks_effects s)
        (integrate_again s)
        (retry_blocked_preintegration_forbidden_operation s)
  unfolding retry_blocked_preintegration_forbidden_operation
  preintegration_forbidden_operation-Recovers = ground arith

  pub unsent_ephemeral_source_recreation-Recovers :
      Recovers s
        (is_terminal "HISTORY_UNAVAILABLE" s
          && has_approved_plan s
          && (lacks_effects s && is_none s.accepted_result))
        (integrate_again s)
        (retry_blocked_unsent_ephemeral_source_recreation s)
  unfolding retry_blocked_unsent_ephemeral_source_recreation
  unsent_ephemeral_source_recreation-Recovers = ground arith

  pub integration_execution_tool_unavailable-Recovers :
      Recovers s
        (is_terminal "EXECUTION_TOOL_UNAVAILABLE" s && has_approved_plan s && lacks_effects s)
        (integrate_again s)
        (retry_blocked_integration_execution_tool_unavailable s)
  unfolding retry_blocked_integration_execution_tool_unavailable
  integration_execution_tool_unavailable-Recovers = ground arith

  pub verification_without_execution-Recovers :
      Recovers s
        (is_terminal "TEST_FAILURE" s && awaits_evidence s)
        (verify_again s)
        (retry_blocked_verification_without_execution s)
  unfolding retry_blocked_verification_without_execution
  verification_without_execution-Recovers = ground arith

  pub verification_completion_collision-Recovers :
      Recovers s
        (is_terminal "DATABASE_ERROR" s && awaits_evidence s)
        (verify_again s)
        (recover_v025_verification_completion_collision s)
  unfolding recover_v025_verification_completion_collision
  verification_completion_collision-Recovers = ground arith

  pub verification_environment_unavailable-Recovers :
      Recovers s
        (is_terminal "CARGO_UNAVAILABLE" s && awaits_evidence s)
        (verify_again s)
        (retry_blocked_verification_environment_unavailable s)
  unfolding retry_blocked_verification_environment_unavailable
  verification_environment_unavailable-Recovers = ground arith

  pub reviewer_reasoning_lifecycle-Recovers :
      Recovers s
        (is_terminal "INCOMPATIBLE_STATE" s && awaits_verdict s && is_ok (validate_test_evidence s))
        (review_again s)
        (retry_blocked_reviewer_reasoning_lifecycle_compatibility s)
  unfolding retry_blocked_reviewer_reasoning_lifecycle_compatibility
  reviewer_reasoning_lifecycle-Recovers = ground arith

  pub corrective_patch_tool_unavailable-Recovers :
      (c : Codec)
      → Recovers s
          (is_terminal "CONTROLLED_PATCH_TOOL_UNAVAILABLE" s
            && is_correctable s
            && any failed s.test_evidence)
          (corrected s)
          (retry_blocked_corrective_patch_tool_unavailable c s)
  unfolding retry_blocked_corrective_patch_tool_unavailable
  corrective_patch_tool_unavailable-Recovers c = ground arith

  pub result_review_patch_not_authorized-Recovers :
      (c : Codec)
      → Recovers s
          (is_terminal "PATCH_NOT_AUTHORIZED" s
            && is_correctable s
            && not (any failed s.test_evidence))
          (integrate_again s)
          (retry_blocked_result_review_patch_not_authorized c s)
  unfolding retry_blocked_result_review_patch_not_authorized
  result_review_patch_not_authorized-Recovers c = ground arith
