-- ===== src/State/Final.antt =====
-- crates/core/src/state.rs: acceptance is final. What an accepted run published stays, and the three
-- operations that do not look at the status come to a state that the store refuses.
use worktree_merge_consensus.Prelude.{
  ◌≡◌, ◌&&◌, inl, inr, Bool, ◌⊎◌, ◌==◌, true, false, arith, refl, String, some, eqb, eqb_sound,
  eqb_complete,
}
use worktree_merge_consensus.Prelude.Results.{Result, ok, err}
use worktree_merge_consensus.State.Defs.{
  RunState, RunFacts, Codec, NextAction, Phase, RunStatus, RunStatus-discrete, status_eq,
  AcceptedResult,
}
use worktree_merge_consensus.State.Exec.{Check, Code, incompatible_state}
use worktree_merge_consensus.State.Persisted.{validate_persisted, map_err}
use worktree_merge_consensus.State.Evidence.{
  validate_complete_test_evidence, validate_test_evidence,
}
use worktree_merge_consensus.State.Requirements.Facts.{require_running-ok}
use worktree_merge_consensus.State.Transitions.{block, request_integration}
use worktree_merge_consensus.State.Planning.{record_plan}
use worktree_merge_consensus.State.Messages.{apply_message}
use worktree_merge_consensus.State.Control.{
  configure_integration, pause, record_error, wait_for_thread, thread_became_idle, resume, cancel,
  mark_incompatible, accept_after_revalidation,
}
use worktree_merge_consensus.State.Recovery.{is_blocked_for, is_terminal}
use worktree_merge_consensus.State.Recovery.Outcomes
use worktree_merge_consensus.State.Recovery.Outcomes.{Recovers, RecoversTo}
use worktree_merge_consensus.State.Workspace.{prepare-keeps}
use worktree_merge_consensus.State.Operations.{
  Operation, configuring, delivering, recording_plan, requesting_integration, accepting, waiting,
  idling, resuming, cancelling, pausing, blocking, marking_incompatible, recording_error, retrying,
  preparing, Retry, retry, is_allowed, perform, Reach,
}
use worktree_merge_consensus.State.Soundness.Revival.{blocked-open, terminal-open}
use worktree_merge_consensus.State.Accepted.{accepted-Reach}

-- `t` is accepted with what `s` published.
pub record IsFinal (s t : RunState) : Type 0 where
  pub accepted : t.status ≡ RunStatus.accepted
  pub result : t.accepted_result ≡ s.accepted_result
  pub branch : t.integration_branch ≡ s.integration_branch
  pub sha : t.integration_sha ≡ s.integration_sha
  pub evidence : t.test_evidence ≡ s.test_evidence

module _ (s : RunState) (h : s.status ≡ RunStatus.accepted) where
  unchanged : IsFinal s s
  unchanged = record { accepted = h; result = refl; branch = refl; sha = refl; evidence = refl }

  Recovers-IsFinal :
      (reason : String) (b : Bool) (t : RunState) (r : Result Code NextAction × RunState)
      → (b ≡ true → is_terminal reason s ≡ true)
      → Recovers s b t r
      → IsFinal s r.1
  Recovers-IsFinal reason b t r stops (inl (_, e)) = rw e unchanged
  Recovers-IsFinal reason b t r stops (inr (p, _)) = absurd (terminal-open s reason (stops p) h)

  RecoversTo-IsFinal :
      (reason : String) (rest : Bool) (phase_of : NextAction → Check Phase)
      (r : Result Code NextAction × RunState)
      → RecoversTo s (is_blocked_for reason s && rest) phase_of r
      → IsFinal s r.1
  RecoversTo-IsFinal reason rest phase_of r (inl (_, e)) = rw e unchanged
  RecoversTo-IsFinal reason rest phase_of r (inr (_, _, _, _, p, _)) =
      absurd (blocked-open s reason (ground arith) h)

  retry-IsFinal : (c : Codec) (kind : Retry) → IsFinal s (retry c kind s).1
  unfolding retry
  retry-IsFinal c Retry.invalid_test_command =
      RecoversTo-IsFinal _ _ _ _ (Outcomes.invalid_test_command-RecoversTo s)
  retry-IsFinal c Retry.preintegration_invalid_response =
      RecoversTo-IsFinal _ _ _ _ (Outcomes.preintegration_invalid_response-RecoversTo s)
  retry-IsFinal c Retry.integration_invalid_response =
      Recovers-IsFinal "INVALID_RESPONSE" _ _ _ (λ p. ground arith)
        (Outcomes.integration_invalid_response-Recovers s)
  retry-IsFinal c Retry.completed_integration_forbidden_operation =
      Recovers-IsFinal "FORBIDDEN_OPERATION" _ _ _ (λ p. ground arith)
        (Outcomes.completed_integration_forbidden_operation-Recovers s)
  retry-IsFinal c Retry.preintegration_forbidden_operation =
      Recovers-IsFinal "FORBIDDEN_OPERATION" _ _ _ (λ p. ground arith)
        (Outcomes.preintegration_forbidden_operation-Recovers s)
  retry-IsFinal c Retry.unsent_ephemeral_source_recreation =
      Recovers-IsFinal "HISTORY_UNAVAILABLE" _ _ _ (λ p. ground arith)
        (Outcomes.unsent_ephemeral_source_recreation-Recovers s)
  retry-IsFinal c Retry.integration_execution_tool_unavailable =
      Recovers-IsFinal "EXECUTION_TOOL_UNAVAILABLE" _ _ _ (λ p. ground arith)
        (Outcomes.integration_execution_tool_unavailable-Recovers s)
  retry-IsFinal c Retry.verification_without_execution =
      Recovers-IsFinal "TEST_FAILURE" _ _ _ (λ p. ground arith)
        (Outcomes.verification_without_execution-Recovers s)
  retry-IsFinal c Retry.verification_completion_collision =
      Recovers-IsFinal "DATABASE_ERROR" _ _ _ (λ p. ground arith)
        (Outcomes.verification_completion_collision-Recovers s)
  retry-IsFinal c Retry.verification_environment_unavailable =
      Recovers-IsFinal "CARGO_UNAVAILABLE" _ _ _ (λ p. ground arith)
        (Outcomes.verification_environment_unavailable-Recovers s)
  retry-IsFinal c Retry.reviewer_reasoning_lifecycle =
      Recovers-IsFinal "INCOMPATIBLE_STATE" _ _ _ (λ p. ground arith)
        (Outcomes.reviewer_reasoning_lifecycle-Recovers s)
  retry-IsFinal c Retry.corrective_patch_tool_unavailable =
      Recovers-IsFinal "CONTROLLED_PATCH_TOOL_UNAVAILABLE" _ _ _ (λ p. ground arith)
        (Outcomes.corrective_patch_tool_unavailable-Recovers s c)
  retry-IsFinal c Retry.result_review_patch_not_authorized =
      Recovers-IsFinal "PATCH_NOT_AUTHORIZED" _ _ _ (λ p. ground arith)
        (Outcomes.result_review_patch_not_authorized-Recovers s c)

  -- Every operation that `is_allowed` lets through keeps an accepted run accepted, with the result, the
  -- branch, the SHA and the evidence that it published.
  pub perform-IsFinal :
      (c : Codec) (op : Operation) → is_allowed op s ≡ true → IsFinal s (perform c op s)
  unfolding perform is_allowed
  perform-IsFinal c (configuring target commands) a =
      unfold configure_integration in ground (arith, require_running-ok s)
  perform-IsFinal c (delivering m) a = unfold apply_message in ground (arith, require_running-ok s)
  perform-IsFinal c (recording_plan payload) a =
      unfold record_plan in ground (arith, require_running-ok s)
  perform-IsFinal c requesting_integration a =
      unfold request_integration in ground (arith, require_running-ok s)
  perform-IsFinal c accepting a =
      unfold accept_after_revalidation in ground (arith, require_running-ok s)
  perform-IsFinal c waiting a = unfold wait_for_thread in ground (arith, require_running-ok s)
  perform-IsFinal c idling a =
      unfold thread_became_idle in
      ground (arith, eqb_sound RunStatus-discrete s.status RunStatus.waiting_thread)
  perform-IsFinal c resuming a =
      unfold resume in
      ground (arith, eqb_sound RunStatus-discrete s.status RunStatus.paused_user_action)
  perform-IsFinal c (pausing reason) a =
      unfold pause in
      ground (
        arith,
        eqb_sound RunStatus-discrete s.status RunStatus.running,
        eqb_sound RunStatus-discrete s.status RunStatus.waiting_thread,
      )
  perform-IsFinal c cancelling a =
      absurd (ground (arith, eqb_complete RunStatus-discrete s.status RunStatus.accepted))
  perform-IsFinal c (blocking reason) a =
      absurd (ground (arith, eqb_complete RunStatus-discrete s.status RunStatus.accepted))
  perform-IsFinal c (marking_incompatible reason) a =
      absurd (ground (arith, eqb_complete RunStatus-discrete s.status RunStatus.accepted))
  perform-IsFinal c (recording_error d) a = unfold record_error in ground arith
  perform-IsFinal c (retrying kind) a = retry-IsFinal c kind
  perform-IsFinal c (preparing path provided) a =
      prepare-keeps (IsFinal s) path provided s unchanged λ w. ground arith

map_err-cases :
    {A : Type 0} (code : Code) (r : Check A)
    → ((a : A) × (map_err code r ≡ ok a)) ⊎ (map_err code r ≡ err code)
map_err-cases code (ok a) = inl (a, refl)
map_err-cases code (err e) = inr refl

-- A state whose result is recorded but that is not accepted is refused.
stray_result :
    (s : RunState) {r : AcceptedResult}
    → s.accepted_result ≡ some r
    → (s.status == RunStatus.accepted) ≡ false
    → validate_persisted s ≡ err incompatible_state
unfolding validate_persisted
stray_result s h o = ground (
  arith,
  map_err-cases incompatible_state (validate_complete_test_evidence s s.test_evidence),
  map_err-cases incompatible_state (validate_test_evidence s),
)

-- Cancelling, blocking or marking an accepted run gives a state that the store refuses, so that none
-- of them is ever saved over an acceptance.
pub accepted-refuses :
    (c : Codec) (facts : RunFacts) (s : RunState)
    → Reach c facts s
    → s.status ≡ RunStatus.accepted
    → (validate_persisted (cancel s) ≡ err incompatible_state)
      × ((reason : String) → validate_persisted (block reason s).1 ≡ err incompatible_state)
      × ((reason : String)
          → validate_persisted (mark_incompatible reason s) ≡ err incompatible_state)
unfolding eqb RunStatus-discrete
accepted-refuses c facts s r h =
    let (_, recorded, _, _, _) = accepted-Reach c facts s r h in
    (
      unfold cancel in stray_result (cancel s) recorded refl,
      λ reason. unfold block in stray_result (block reason s).1 recorded refl,
      λ reason. unfold mark_incompatible in stray_result (mark_incompatible reason s) recorded refl,
    )
