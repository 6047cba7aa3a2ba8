-- ===== src/State/Steering.antt =====
-- crates/core/src/state.rs: the operations that only steer a run. They write its status, its phase,
-- its next action, its reason and its last error, and nothing of what it has agreed or produced.
use worktree_merge_consensus.Prelude.{
  ◌≡◌, refl, arith, true, false, inl, inr, Bool, Option, String, ◌==◌, ◌||◌,
}
use worktree_merge_consensus.Prelude.Results.{Result, guard}
use worktree_merge_consensus.State.Defs.{
  RunState, RunStatus, RunDiagnostic, Codec, NextAction, Phase, status_eq,
}
use worktree_merge_consensus.State.Exec.{
  Check, Code, plan_not_approved, not_waiting_thread, not_paused, run_not_active,
}
use worktree_merge_consensus.State.Exec.Keeps.{bind-keeps}
use worktree_merge_consensus.State.Requirements.{require_running, require_phase}
use worktree_merge_consensus.State.Transitions.{block, request_integration}
use worktree_merge_consensus.State.Control.{
  pause, record_error, wait_for_thread, thread_became_idle, resume, cancel, mark_incompatible,
}
use worktree_merge_consensus.State.Recovery.{revive}
use worktree_merge_consensus.State.Recovery.Outcomes
use worktree_merge_consensus.State.Recovery.Outcomes.{Recovers, RecoversTo}
use worktree_merge_consensus.State.Operations.{
  Operation, configuring, delivering, recording_plan, requesting_integration, accepting, waiting,
  idling, resuming, cancelling, pausing, blocking, marking_incompatible, recording_error, retrying,
  preparing, Retry, retry, perform,
}
use worktree_merge_consensus.State.Soundness.Revival.{finish-state}

abbrev pub steered :
    RunStatus → Phase → NextAction → Option String → Option RunDiagnostic → RunState → RunState
steered status phase action reason error s = record s {
  status = status;
  phase = phase;
  next_action = action;
  reason_code = reason;
  last_error = error;
}

abbrev pub Steers : RunState → RunState → Type 0
Steers s t =
    (status : RunStatus) × (phase : Phase) × (action : NextAction) × (reason : Option String)
    × (error : Option RunDiagnostic) × (t ≡ steered status phase action reason error s)

abbrev pub is_steering : Operation → Bool
is_steering (configuring target commands) = false
is_steering (delivering m) = false
is_steering (recording_plan payload) = false
is_steering accepting = false
is_steering (preparing verification_path provided) = false
is_steering _ = true

-- A property that no steered state loses is kept.
pub Steers-keeps :
    (P : RunState → Type 0) (s t : RunState)
    → ((status : RunStatus) (phase : Phase) (action : NextAction) (reason : Option String)
          (error : Option RunDiagnostic)
        → P (steered status phase action reason error s))
    → Steers s t
    → P t
Steers-keeps P s t k (status, phase, action, reason, error, e) =
    rw e (k status phase action reason error)

module _ (s : RunState) where
  unchanged : Steers s s
  unchanged = (s.status, s.phase, s.next_action, s.reason_code, s.last_error, refl)

  revive-Steers : (phase : Phase) (action : NextAction) → Steers s (revive phase action s)
  unfolding revive
  revive-Steers phase action = (_, _, _, _, _, refl)

  Recovers-Steers :
      (b : Bool) (t : RunState) (r : Result Code NextAction × RunState)
      → Recovers s b t r
      → Steers s t
      → Steers s r.1
  Recovers-Steers b t r (inl (_, e)) x = rw e unchanged
  Recovers-Steers b t r (inr (h, e)) x = rw e (finish-state t s (Steers s) x)

  RecoversTo-Steers :
      (b : Bool) (phase_of : NextAction → Check Phase) (r : Result Code NextAction × RunState)
      → RecoversTo s b phase_of r
      → Steers s r.1
  RecoversTo-Steers b phase_of r (inl (_, e)) = rw e unchanged
  RecoversTo-Steers b phase_of r (inr (d, phase, _, p, h, e)) =
      rw e (finish-state (revive phase d.action s) s (Steers s) (revive-Steers phase d.action))

  retry-Steers : (c : Codec) (kind : Retry) → Steers s (retry c kind s).1
  unfolding retry
  retry-Steers c Retry.invalid_test_command =
      RecoversTo-Steers _ _ _ (Outcomes.invalid_test_command-RecoversTo s)
  retry-Steers c Retry.preintegration_invalid_response =
      RecoversTo-Steers _ _ _ (Outcomes.preintegration_invalid_response-RecoversTo s)
  retry-Steers c Retry.integration_invalid_response =
      Recovers-Steers _ _ _ (Outcomes.integration_invalid_response-Recovers s) (revive-Steers _ _)
  retry-Steers c Retry.completed_integration_forbidden_operation =
      Recovers-Steers _ _ _ (Outcomes.completed_integration_forbidden_operation-Recovers s)
        (revive-Steers _ _)
  retry-Steers c Retry.preintegration_forbidden_operation =
      Recovers-Steers _ _ _ (Outcomes.preintegration_forbidden_operation-Recovers s)
        (revive-Steers _ _)
  retry-Steers c Retry.unsent_ephemeral_source_recreation =
      Recovers-Steers _ _ _ (Outcomes.unsent_ephemeral_source_recreation-Recovers s)
        (revive-Steers _ _)
  retry-Steers c Retry.integration_execution_tool_unavailable =
      Recovers-Steers _ _ _ (Outcomes.integration_execution_tool_unavailable-Recovers s)
        (revive-Steers _ _)
  retry-Steers c Retry.verification_without_execution =
      Recovers-Steers _ _ _ (Outcomes.verification_without_execution-Recovers s) (revive-Steers _ _)
  retry-Steers c Retry.verification_completion_collision =
      Recovers-Steers _ _ _ (Outcomes.verification_completion_collision-Recovers s)
        (revive-Steers _ _)
  retry-Steers c Retry.verification_environment_unavailable =
      Recovers-Steers _ _ _ (Outcomes.verification_environment_unavailable-Recovers s)
        (revive-Steers _ _)
  retry-Steers c Retry.reviewer_reasoning_lifecycle =
      Recovers-Steers _ _ _ (Outcomes.reviewer_reasoning_lifecycle-Recovers s) (revive-Steers _ _)
  retry-Steers c Retry.corrective_patch_tool_unavailable =
      Recovers-Steers _ _ _ (Outcomes.corrective_patch_tool_unavailable-Recovers s c)
        (_, _, _, _, _, refl)
  retry-Steers c Retry.result_review_patch_not_authorized =
      Recovers-Steers _ _ _ (Outcomes.result_review_patch_not_authorized-Recovers s c)
        (revive-Steers _ _)

  pub perform-Steers :
      (c : Codec) (op : Operation) → is_steering op ≡ true → Steers s (perform c op s)
  unfolding perform
  perform-Steers c requesting_integration h =
      unfold request_integration in
      bind-keeps (Steers s) (require_running s) _ s unchanged λ _ _.
        bind-keeps (Steers s) (require_phase s Phase.plan_review) _ s unchanged λ _ _.
          bind-keeps (Steers s) (guard plan_not_approved s.plan_approved) _ s unchanged
            λ _ _. (_, _, _, _, _, refl)
  perform-Steers c waiting h =
      unfold wait_for_thread in
      bind-keeps (Steers s) (require_running s) _ s unchanged λ _ _. (_, _, _, _, _, refl)
  perform-Steers c idling h =
      unfold thread_became_idle in
      bind-keeps (Steers s) (guard not_waiting_thread (s.status == RunStatus.waiting_thread)) _ s
        unchanged λ _ _. (_, _, _, _, _, refl)
  perform-Steers c resuming h =
      unfold resume in
      bind-keeps (Steers s) (guard not_paused (s.status == RunStatus.paused_user_action)) _ s
        unchanged λ _ _. (_, _, _, _, _, refl)
  perform-Steers c cancelling h = unfold cancel in (_, _, _, _, _, refl)
  perform-Steers c (pausing reason) h =
      unfold pause in
      bind-keeps (Steers s)
        (guard run_not_active
          (s.status == RunStatus.running || s.status == RunStatus.waiting_thread))
        _ s unchanged λ _ _. (_, _, _, _, _, refl)
  perform-Steers c (blocking reason) h = unfold block in (_, _, _, _, _, refl)
  perform-Steers c (marking_incompatible reason) h =
      unfold mark_incompatible in (_, _, _, _, _, refl)
  perform-Steers c (recording_error d) h = unfold record_error in (_, _, _, _, _, refl)
  perform-Steers c (retrying kind) h = retry-Steers c kind
  perform-Steers c (configuring target commands) h = absurd (ground arith)
  perform-Steers c (delivering m) h = absurd (ground arith)
  perform-Steers c (recording_plan payload) h = absurd (ground arith)
  perform-Steers c accepting h = absurd (ground arith)
  perform-Steers c (preparing path provided) h = absurd (ground arith)
