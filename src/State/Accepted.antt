-- ===== src/State/Accepted.antt =====
-- What an accepted run guarantees: the result that it publishes binds the frozen sources, the exact
-- integration that was approved, and complete evidence that every frozen command succeeded.
use worktree_merge_consensus.Prelude.{
  inl, inr, true, false, List, [], ◌∷◌, some, ◌≡◌, ◌∙◌, arith, eqb_sound, String-discrete,
  Option-discrete,
}
use worktree_merge_consensus.Prelude.Results.{ok, Result-cases}
use worktree_merge_consensus.Prelude.Searches.{All, any-false}
use worktree_merge_consensus.State.Defs.{
  RunState, RunFacts, AcceptedResult, TestEvidence, Codec, Phase, RunStatus, pos, Phase-discrete,
  AcceptedResult-discrete, ℤ-discrete,
}
use worktree_merge_consensus.State.Exec.{Code, incompatible_state}
use worktree_merge_consensus.State.Evidence.{
  failed, validate_test_evidence, validate_complete_test_evidence,
}
use worktree_merge_consensus.State.Evidence.Complete.{IsComplete, is_incomplete-IsComplete}
use worktree_merge_consensus.State.Persisted.{validate_accepted, accepted_result_of}
use worktree_merge_consensus.State.Operations.{Reach}
use worktree_merge_consensus.State.Soundness.{IsSound}
use worktree_merge_consensus.State.Soundness.Reached.{Reach-IsSound}
use worktree_merge_consensus.State.Frame.Operations.{Reach-facts}

-- The result binds the run: its sources, the branch and SHA integrated and approved, evidence for
-- each frozen command once, all successful, and nothing published beyond the local branch.
pub record IsBound (s : RunState) (r : AcceptedResult) : Type 0 where
  pub primary : r.primary_sha ≡ s.facts.primary_sha
  pub reviewer : r.reviewer_sha ≡ s.facts.reviewer_sha
  pub branch : s.integration_branch ≡ some r.integration_branch
  pub integrated : s.integration_sha ≡ some r.integration_sha
  pub approved : s.result_approved_sha ≡ some r.integration_sha
  pub complete : IsComplete s.required_test_commands r.tests
  pub successful : All (λ e. e.exit_code ≡ pos 0) r.tests
  pub local_only : r.publication.local_only ≡ true
  pub unpublished :
      (r.publication.pushed ≡ false)
      × (r.publication.pull_request_created ≡ false)
      × (r.publication.merged_into_existing_branch ≡ false)

evidence_successes :
    (es : List TestEvidence) → All (λ e. failed e ≡ false) es → All (λ e. e.exit_code ≡ pos 0) es
unfolding failed
evidence_successes [] h = tt
evidence_successes (e ∷ es) (h, hs) =
    (ground (arith, eqb_sound ℤ-discrete e.exit_code (pos 0)), evidence_successes es hs)

-- The result that acceptance records, once the branch and the SHA integrated are there.
accepted_result_of-ok :
    (s : RunState) (code : Code) {r : AcceptedResult}
    → accepted_result_of s code ≡ ok r
    → (s.integration_branch ≡ some r.integration_branch)
      × (s.integration_sha ≡ some r.integration_sha)
      × (r.tests ≡ s.test_evidence)
      × (r.primary_sha ≡ s.facts.primary_sha)
      × (r.reviewer_sha ≡ s.facts.reviewer_sha)
      × (r.publication.local_only ≡ true)
      × (r.publication.pushed ≡ false)
      × (r.publication.pull_request_created ≡ false)
      × (r.publication.merged_into_existing_branch ≡ false)
unfolding accepted_result_of
accepted_result_of-ok s code h = ground arith

validate_accepted-parts :
    (s : RunState)
    → validate_accepted s ≡ ok tt
    → (s.result_approved_sha ≡ s.integration_sha)
      × (validate_test_evidence s ≡ ok tt)
      × (r : AcceptedResult) × (accepted_result_of s incompatible_state ≡ ok r)
      × (s.accepted_result ≡ some r)
unfolding validate_accepted
validate_accepted-parts s h = elim (Result-cases (accepted_result_of s incompatible_state)) [
  | inl (r, found) ↦ (
    ground (
      arith,
      eqb_sound (Option-discrete String-discrete) s.result_approved_sha s.integration_sha,
    ),
    ground arith,
    r,
    found,
    ground (arith, eqb_sound (Option-discrete AcceptedResult-discrete) s.accepted_result (some r)),
  )
  | inr (e, lost) ↦ absurd (ground arith)
]

-- What `validate_test_evidence` checked.
validate_test_evidence-ok :
    (s : RunState)
    → validate_test_evidence s ≡ ok tt
    → IsComplete s.required_test_commands s.test_evidence
      × All (λ e. e.exit_code ≡ pos 0) s.test_evidence
unfolding validate_test_evidence validate_complete_test_evidence
validate_test_evidence-ok s h = (
  (is_incomplete-IsComplete s.required_test_commands s.test_evidence).0 (ground arith),
  evidence_successes s.test_evidence (any-false failed s.test_evidence (ground arith)),
)

pub accepted-plan_approved :
    (s : RunState) → IsSound s → s.status ≡ RunStatus.accepted → s.plan_approved ≡ true
unfolding validate_accepted
accepted-plan_approved s v h =
    ground (arith, v.closed_result h, eqb_sound Phase-discrete s.phase Phase.accepted)

-- A run that reached acceptance published a result that is bound to it.
pub accepted-Reach :
    (c : Codec) (facts : RunFacts) (s : RunState)
    → Reach c facts s
    → s.status ≡ RunStatus.accepted
    → (r : AcceptedResult) × (s.accepted_result ≡ some r)
      × IsBound s r
      × (r.primary_sha ≡ facts.primary_sha)
      × (r.reviewer_sha ≡ facts.reviewer_sha)
accepted-Reach c facts s reached h =
    let sound = Reach-IsSound c reached in
    let (exact, evidence, r, found, recorded) = validate_accepted-parts s (sound.closed_result h) in
    let (branch, sha, tests, primary, reviewer, local, pushed, pull, merged) =
      accepted_result_of-ok s incompatible_state found in
    let (complete, successful) = validate_test_evidence-ok s evidence in
    let from = Reach-facts c reached in
    (
      r,
      recorded,
      record {
        primary = primary;
        reviewer = reviewer;
        branch = branch;
        integrated = sha;
        approved = exact ∙ sha;
        complete = rw tests complete;
        successful = rw tests successful;
        local_only = local;
        unpublished = (pushed, pull, merged);
      },
      ground arith,
      ground arith,
    )
