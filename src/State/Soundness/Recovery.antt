-- ===== src/State/Soundness/Recovery.antt =====
-- The recoveries of a blocked run keep its state sound.
use worktree_merge_consensus.Prelude.{◌≡◌, inl, inr, arith, Bool, true, ◌&&◌, &&_true, String}
use worktree_merge_consensus.Prelude.Results.{Result, ok, is_ok}
use worktree_merge_consensus.State.Defs.{RunState, Codec, NextAction, Phase}
use worktree_merge_consensus.State.Exec.{Check, Code}
use worktree_merge_consensus.State.Evidence.{validate_test_evidence}
use worktree_merge_consensus.State.Recovery.{
  is_blocked_for, is_terminal, has_approved_plan, lacks_result, awaits_evidence, revive,
}
use worktree_merge_consensus.State.Recovery.Planning.{declaration_phase, read_only_phase}
use worktree_merge_consensus.State.Recovery.Verification.{awaits_verdict}
use worktree_merge_consensus.State.Recovery.Correction.{is_correctable}
use worktree_merge_consensus.State.Recovery.Outcomes
use worktree_merge_consensus.State.Recovery.Outcomes.{
  Recovers, RecoversTo, integrate_again, verify_again, review_again, corrected,
}
use worktree_merge_consensus.State.Operations.{Retry, retry}
use worktree_merge_consensus.State.Soundness.{IsSound, is_planning, action_fits}
use worktree_merge_consensus.State.Soundness.Revival.{
  finish-state, revive-planning, revive-integrate, revive-verify, revive-review, blocked-open,
  terminal-open, has_approved_plan-approved, awaits_evidence-facts, awaits_verdict-facts,
  is_correctable-approved, correct-IsSound, declaration_phase-fits, read_only_phase-fits,
}

module _ (s : RunState) (v : IsSound s) where
  Recovers-IsSound :
      (b : Bool) (t : RunState) (r : Result Code NextAction × RunState)
      → Recovers s b t r
      → (b ≡ true → IsSound t)
      → IsSound r.1
  Recovers-IsSound b t r (inl (_, e)) k = rw e v
  Recovers-IsSound b t r (inr (h, e)) k = rw e (finish-state t s IsSound (k h))

  -- The reason and the rest of the guards vary; the parts named here are what soundness needs.
  planning-IsSound :
      (reason : String) (phase_of : NextAction → Check Phase)
      (r : Result Code NextAction × RunState)
      → ((action : NextAction) (phase : Phase)
          → phase_of action ≡ ok phase
          → (is_planning phase ≡ true) × (action_fits phase action ≡ true))
      → RecoversTo s (is_blocked_for reason s && lacks_result s) phase_of r
      → IsSound r.1
  planning-IsSound reason phase_of r fits (inl (_, e)) = rw e v
  planning-IsSound reason phase_of r fits (inr (d, phase, _, p, h, e)) =
      let (b, l) = &&_true _ _ h in
      let (planning, fitting) = fits d.action phase p in
      rw e (
        finish-state (revive phase d.action s) s IsSound
          (revive-planning s v (blocked-open s reason b) phase d.action planning fitting l))

  integrating-IsSound :
      (reason : String) (rest : Bool)
      → (is_terminal reason s && has_approved_plan s && rest) ≡ true
      → IsSound (integrate_again s)
  integrating-IsSound reason rest h =
      revive-integrate s v (terminal-open s reason (ground arith))
        (has_approved_plan-approved s (ground arith))

  verifying-IsSound :
      (reason : String)
      → (is_terminal reason s && awaits_evidence s) ≡ true
      → IsSound (verify_again s)
  verifying-IsSound reason h =
      let (approved, integrated) = awaits_evidence-facts s (ground arith) in
      revive-verify s v (terminal-open s reason (ground arith)) approved integrated

  reviewing-IsSound :
      (reason : String)
      → (is_terminal reason s && awaits_verdict s && is_ok (validate_test_evidence s)) ≡ true
      → IsSound (review_again s)
  reviewing-IsSound reason h =
      let (approved, integrated) = awaits_verdict-facts s (ground arith) in
      revive-review s v (terminal-open s reason (ground arith)) approved integrated (ground arith)

  correcting-IsSound :
      (reason : String) (rest : Bool)
      → (is_terminal reason s && is_correctable s && rest) ≡ true
      → IsSound (corrected s) × IsSound (integrate_again s)
  correcting-IsSound reason rest h =
      let stopped = terminal-open s reason (ground arith) in
      let approved = is_correctable-approved s (ground arith) in
      (correct-IsSound s v stopped approved, revive-integrate s v stopped approved)

  pub retry-IsSound : (c : Codec) (kind : Retry) → IsSound (retry c kind s).1
  unfolding retry
  retry-IsSound c Retry.invalid_test_command =
      planning-IsSound _ declaration_phase _ (λ action phase p. declaration_phase-fits action p)
        (Outcomes.invalid_test_command-RecoversTo s)
  retry-IsSound c Retry.preintegration_invalid_response =
      planning-IsSound _ read_only_phase _ (λ action phase p. read_only_phase-fits action p)
        (Outcomes.preintegration_invalid_response-RecoversTo s)
  retry-IsSound c Retry.integration_invalid_response =
      Recovers-IsSound _ _ _ (Outcomes.integration_invalid_response-Recovers s)
        (integrating-IsSound _ _)
  retry-IsSound c Retry.completed_integration_forbidden_operation =
      Recovers-IsSound _ _ _ (Outcomes.completed_integration_forbidden_operation-Recovers s)
        (integrating-IsSound _ _)
  retry-IsSound c Retry.preintegration_forbidden_operation =
      Recovers-IsSound _ _ _ (Outcomes.preintegration_forbidden_operation-Recovers s)
        (integrating-IsSound _ _)
  retry-IsSound c Retry.unsent_ephemeral_source_recreation =
      Recovers-IsSound _ _ _ (Outcomes.unsent_ephemeral_source_recreation-Recovers s)
        (integrating-IsSound _ _)
  retry-IsSound c Retry.integration_execution_tool_unavailable =
      Recovers-IsSound _ _ _ (Outcomes.integration_execution_tool_unavailable-Recovers s)
        (integrating-IsSound _ _)
  retry-IsSound c Retry.verification_without_execution =
      Recovers-IsSound _ _ _ (Outcomes.verification_without_execution-Recovers s)
        (verifying-IsSound _)
  retry-IsSound c Retry.verification_completion_collision =
      Recovers-IsSound _ _ _ (Outcomes.verification_completion_collision-Recovers s)
        (verifying-IsSound _)
  retry-IsSound c Retry.verification_environment_unavailable =
      Recovers-IsSound _ _ _ (Outcomes.verification_environment_unavailable-Recovers s)
        (verifying-IsSound _)
  retry-IsSound c Retry.reviewer_reasoning_lifecycle =
      Recovers-IsSound _ _ _ (Outcomes.reviewer_reasoning_lifecycle-Recovers s)
        (reviewing-IsSound _)
  retry-IsSound c Retry.corrective_patch_tool_unavailable =
      Recovers-IsSound _ _ _ (Outcomes.corrective_patch_tool_unavailable-Recovers s c)
        (λ h. (correcting-IsSound _ _ h).0)
  retry-IsSound c Retry.result_review_patch_not_authorized =
      Recovers-IsSound _ _ _ (Outcomes.result_review_patch_not_authorized-Recovers s c)
        (λ h. (correcting-IsSound _ _ h).1)
