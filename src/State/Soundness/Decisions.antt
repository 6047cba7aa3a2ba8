-- ===== src/State/Soundness/Decisions.antt =====
-- A recovery of a run that was reached decides: it refuses and leaves the run blocked as it was, or
-- it succeeds and the run goes on.
use worktree_merge_consensus.Prelude.{◌≡◌, ◌⊎◌, inl, inr, refl, arith, Bool, false}
use worktree_merge_consensus.Prelude.Results.{Result, ok, is_ok}
use worktree_merge_consensus.State.Defs.{RunState, RunFacts, Codec, NextAction, Phase, RunStatus}
use worktree_merge_consensus.State.Exec.{Check, Code}
use worktree_merge_consensus.State.Persisted.{validate_persisted}
use worktree_merge_consensus.State.Recovery.{revive, finish}
use worktree_merge_consensus.State.Recovery.Outcomes
use worktree_merge_consensus.State.Recovery.Outcomes.{Recovers, RecoversTo}
use worktree_merge_consensus.State.Operations.{Retry, retry, Reach}
use worktree_merge_consensus.State.Soundness.{IsSound}
use worktree_merge_consensus.State.Soundness.Stored.{validate_persisted-IsSound}
use worktree_merge_consensus.State.Soundness.Recovery.{retry-IsSound}
use worktree_merge_consensus.State.Soundness.Reached.{Reach-IsSound}

abbrev pub Decides : RunState → Result Code NextAction × RunState → Type 0
Decides s r =
    ((is_ok r.0 ≡ false) × (r.1 ≡ s))
    ⊎ ((r.0 ≡ ok r.1.next_action) × (r.1.status ≡ RunStatus.running))

finish-Decides :
    (s t : RunState) (r : Result Code NextAction × RunState)
    → t.status ≡ RunStatus.running
    → (r.1 ≡ t → validate_persisted t ≡ ok tt)
    → r ≡ finish t s
    → Decides s r
unfolding finish
finish-Decides s t r run stored e = ground (arith)

module _ (s : RunState) where
  Recovers-Decides :
      (b : Bool) (t : RunState) (r : Result Code NextAction × RunState)
      → t.status ≡ RunStatus.running
      → IsSound r.1
      → Recovers s b t r
      → Decides s r
  Recovers-Decides b t r run v (inl refused) = inl refused
  Recovers-Decides b t r run v (inr (h, e)) =
      finish-Decides s t r run (λ p. rw p at (validate_persisted-IsSound r.1 v)) e

  RecoversTo-Decides :
      (b : Bool) (phase_of : NextAction → Check Phase) (r : Result Code NextAction × RunState)
      → IsSound r.1
      → RecoversTo s b phase_of r
      → Decides s r
  unfolding revive
  RecoversTo-Decides b phase_of r v (inl refused) = inl refused
  RecoversTo-Decides b phase_of r v (inr (d, phase, _, p, h, e)) =
      finish-Decides s (revive phase d.action s) r refl
        (λ q. rw q at (validate_persisted-IsSound r.1 v)) e

  retry-Decides :
      (c : Codec) (kind : Retry) → IsSound (retry c kind s).1 → Decides s (retry c kind s)
  unfolding retry revive
  retry-Decides c Retry.invalid_test_command v =
      RecoversTo-Decides _ _ _ v (Outcomes.invalid_test_command-RecoversTo s)
  retry-Decides c Retry.preintegration_invalid_response v =
      RecoversTo-Decides _ _ _ v (Outcomes.preintegration_invalid_response-RecoversTo s)
  retry-Decides c Retry.integration_invalid_response v =
      Recovers-Decides _ _ _ refl v (Outcomes.integration_invalid_response-Recovers s)
  retry-Decides c Retry.completed_integration_forbidden_operation v =
      Recovers-Decides _ _ _ refl v (Outcomes.completed_integration_forbidden_operation-Recovers s)
  retry-Decides c Retry.preintegration_forbidden_operation v =
      Recovers-Decides _ _ _ refl v (Outcomes.preintegration_forbidden_operation-Recovers s)
  retry-Decides c Retry.unsent_ephemeral_source_recreation v =
      Recovers-Decides _ _ _ refl v (Outcomes.unsent_ephemeral_source_recreation-Recovers s)
  retry-Decides c Retry.integration_execution_tool_unavailable v =
      Recovers-Decides _ _ _ refl v (Outcomes.integration_execution_tool_unavailable-Recovers s)
  retry-Decides c Retry.verification_without_execution v =
      Recovers-Decides _ _ _ refl v (Outcomes.verification_without_execution-Recovers s)
  retry-Decides c Retry.verification_completion_collision v =
      Recovers-Decides _ _ _ refl v (Outcomes.verification_completion_collision-Recovers s)
  retry-Decides c Retry.verification_environment_unavailable v =
      Recovers-Decides _ _ _ refl v (Outcomes.verification_environment_unavailable-Recovers s)
  retry-Decides c Retry.reviewer_reasoning_lifecycle v =
      Recovers-Decides _ _ _ refl v (Outcomes.reviewer_reasoning_lifecycle-Recovers s)
  retry-Decides c Retry.corrective_patch_tool_unavailable v =
      Recovers-Decides _ _ _ refl v (Outcomes.corrective_patch_tool_unavailable-Recovers s c)
  retry-Decides c Retry.result_review_patch_not_authorized v =
      Recovers-Decides _ _ _ refl v (Outcomes.result_review_patch_not_authorized-Recovers s c)

-- Each recovery of a reached run fails and leaves the state as it was, or it succeeds with the next
-- action of a state that is running.
pub retry-Reach-Decides :
    (c : Codec) (facts : RunFacts) (s : RunState) (kind : Retry)
    → Reach c facts s
    → Decides s (retry c kind s)
retry-Reach-Decides c facts s kind r =
    retry-Decides s c kind (retry-IsSound s (Reach-IsSound c r) c kind)
