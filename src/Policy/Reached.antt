-- ===== src/Policy/Reached.antt =====
-- crates/daemon/src/policy.rs over the runs of crates/core/src/state.rs: in which runs a command is
-- allowed.
use worktree_merge_consensus.Prelude.{
  true, false, some, ◌≡◌, ◌⊎◌, inl, inr, refl, ap, ◌∙◌, arith, subst,
}
use worktree_merge_consensus.Json.{Value, get, as_str}
use worktree_merge_consensus.State.Defs.{Phase, NextAction, RunFacts, RunState, Codec}
use worktree_merge_consensus.State.Persisted.{lacks_integration}
use worktree_merge_consensus.State.Operations.{Reach}
use worktree_merge_consensus.State.Soundness.{action_fits}
use worktree_merge_consensus.State.Soundness.Reached.{Reach-IsSound}
use worktree_merge_consensus.Policy.Defs.{ApprovalDecision, Shell}
use worktree_merge_consensus.Policy.Approval.{and_then, expected_cwd, decide_command_approval}
use worktree_merge_consensus.Policy.Decided.{decide_command_approval-BelongsTo}

-- The plan is approved, and the request is of the phase and the worktree that it is to be carried out in.
abbrev pub IsUnderPlan : Shell → RunState → Value → Type 0
IsUnderPlan sh s params =
    (s.plan_approved ≡ true)
    × (((s.phase ≡ Phase.integrate)
          × (and_then (get params "cwd") as_str ≡ sh.to_str s.facts.primary_worktree))
        ⊎ ((s.phase ≡ Phase.verify)
            × (lacks_integration s ≡ false)
            × (and_then (get params "cwd") as_str ≡ and_then s.verification_worktree (sh.to_str))))

fits-integrate :
    (p : Phase) → action_fits p NextAction.request_primary_integration ≡ true → p ≡ Phase.integrate
fits-integrate p h = ground arith

fits-verify :
    (p : Phase) → action_fits p NextAction.request_primary_verification ≡ true → p ≡ Phase.verify
fits-verify p h = ground arith

module _ (sh : Shell) (c : Codec) {facts : RunFacts} {s : RunState}
    (reached : Reach c facts s) where
  integrating :
      s.next_action ≡ NextAction.request_primary_integration
      → (s.phase ≡ Phase.integrate)
        × (s.plan_approved ≡ true)
        × (expected_cwd s ≡ some s.facts.primary_worktree)
  unfolding expected_cwd
  integrating e =
      let sound = Reach-IsSound c reached in
      let phase = fits-integrate s.phase (subst (λ a. action_fits s.phase a ≡ true) e sound.fits) in
      (phase, sound.approved (rw phase refl), rw e refl)

  verifying :
      s.next_action ≡ NextAction.request_primary_verification
      → (s.phase ≡ Phase.verify)
        × (s.plan_approved ≡ true)
        × (lacks_integration s ≡ false)
        × (expected_cwd s ≡ s.verification_worktree)
  unfolding expected_cwd
  verifying e =
      let sound = Reach-IsSound c reached in
      let phase = fits-verify s.phase (subst (λ a. action_fits s.phase a ≡ true) e sound.fits) in
      (phase, sound.approved (rw phase refl), sound.integrated (rw phase refl), rw e refl)

  -- In a run that is reached, a command is allowed only under an approved plan, either in INTEGRATE and
  -- with the Primary's worktree as the request's `cwd`, or in VERIFY, after an integration is on record
  -- and with the workspace of the verification that the run holds as the `cwd`. The `cwd` is absent
  -- only where there is no such path or it is not text.
  pub decide_command_approval-Reach :
      (params : Value)
      → decide_command_approval sh s params ≡ ApprovalDecision.accept
      → IsUnderPlan sh s params
  decide_command_approval-Reach params h =
      let (_, _, _, _, _, turn, cwd, _) = decide_command_approval-BelongsTo sh s params h in
      elim turn [
        | inl (e, _) ↦
            let (phase, approved, place) = integrating e in
            (approved, inl (phase, cwd ∙ ap (λ o. and_then o (sh.to_str)) place))
        | inr (e, _) ↦
            let (phase, approved, integrated, place) = verifying e in
            (approved, inr (phase, integrated, cwd ∙ ap (λ o. and_then o (sh.to_str)) place))
      ]
