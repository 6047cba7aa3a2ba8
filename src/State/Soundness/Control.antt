-- ===== src/State/Soundness/Control.antt =====
-- The control operations keep a run's state sound.
use worktree_merge_consensus.Prelude.{
  ◌≡◌, ◌≢◌, not, ◌||◌, string_eq, option_eq, refl, arith, true, String, List, eqb, eqb_sound,
  eqb_refl, some, Option-discrete, String-discrete, ◌!=◌,
}
use worktree_merge_consensus.Prelude.Results.{ok, guard}
use worktree_merge_consensus.State.Defs.{
  action_eq, RunState, PathBuf, RunFacts, RunDiagnostic, Phase, NextAction, RunStatus,
  Phase-discrete, RunStatus-discrete, NextAction-discrete, AcceptedResult, AcceptedResult-discrete,
  new,
}
use worktree_merge_consensus.State.Persisted.{
  lacks_integration, validate_accepted, accepted_result_of,
}
use worktree_merge_consensus.State.Evidence.{
  validate_test_evidence, validate_complete_test_evidence,
}
use worktree_merge_consensus.State.Requirements.Facts.{require_running-ok}
use worktree_merge_consensus.State.Control.{
  configure_integration, pause, record_error, wait_for_thread, thread_became_idle, resume, cancel,
  mark_incompatible, accept_after_revalidation, accepted_state,
}
use worktree_merge_consensus.State.Exec.{
  Code, incompatible_state, invalid_state, result_not_approved,
}
use worktree_merge_consensus.State.Exec.Keeps.{bind-keeps}
use worktree_merge_consensus.State.Requirements.{require_running}
use worktree_merge_consensus.State.Soundness.{IsSound}

pub new-IsSound : (facts : RunFacts) → IsSound (new facts)
unfolding new lacks_integration
new-IsSound facts = ground arith

module _ (s : RunState) (v : IsSound s) where
  pub configure_integration-IsSound :
      (target : String) (commands : List String)
      → IsSound (configure_integration target commands s).1
  unfolding configure_integration lacks_integration
  configure_integration-IsSound target commands =
      ground (arith, require_running-ok s, eqb_sound Phase-discrete s.phase Phase.contract)

  pub pause-IsSound : (reason : String) → IsSound (pause reason s).1
  unfolding pause lacks_integration
  pause-IsSound reason = ground (
    arith,
    eqb_sound RunStatus-discrete s.status RunStatus.running,
    eqb_sound RunStatus-discrete s.status RunStatus.waiting_thread,
  )

  validate_accepted-record_error :
      (d : RunDiagnostic) → validate_accepted (record_error d s) ≡ validate_accepted s
  unfolding record_error validate_accepted accepted_result_of validate_test_evidence
      validate_complete_test_evidence
  validate_accepted-record_error d = refl

  validate_accepted-prepared :
      (w : PathBuf)
      → validate_accepted (record s { verification_worktree = some w }) ≡ validate_accepted s
  unfolding validate_accepted accepted_result_of lacks_integration validate_test_evidence
      validate_complete_test_evidence
  validate_accepted-prepared w = refl

  pub prepared-IsSound : (w : PathBuf) → IsSound (record s { verification_worktree = some w })
  unfolding lacks_integration
  prepared-IsSound w = ground (arith, validate_accepted-prepared w)

  pub record_error-IsSound : (d : RunDiagnostic) → IsSound (record_error d s)
  unfolding record_error lacks_integration
  record_error-IsSound d = ground (arith, validate_accepted-record_error d)

  pub wait_for_thread-IsSound : IsSound (wait_for_thread s).1
  unfolding wait_for_thread lacks_integration
  wait_for_thread-IsSound = ground (arith, require_running-ok s)

  pub thread_became_idle-IsSound : IsSound (thread_became_idle s).1
  unfolding thread_became_idle lacks_integration
  thread_became_idle-IsSound =
      ground (arith, eqb_sound RunStatus-discrete s.status RunStatus.waiting_thread)

  pub resume-IsSound : IsSound (resume s).1
  unfolding resume lacks_integration
  resume-IsSound =
      ground (arith, eqb_sound RunStatus-discrete s.status RunStatus.paused_user_action)

  pub cancel-IsSound : s.status ≢ RunStatus.accepted → IsSound (cancel s)
  unfolding cancel lacks_integration
  cancel-IsSound o = ground arith

  pub mark_incompatible-IsSound :
      (reason : String) → s.status ≢ RunStatus.accepted → IsSound (mark_incompatible reason s)
  unfolding mark_incompatible lacks_integration
  mark_incompatible-IsSound reason o = ground arith

accepted_result_of-code :
    (s : RunState) (code other : Code) {r : AcceptedResult}
    → accepted_result_of s code ≡ ok r
    → accepted_result_of s other ≡ ok r
unfolding accepted_result_of
accepted_result_of-code s code other h = ground arith

-- What acceptance writes is what a stored accepted state must hold.
validate_accepted-accepted_state :
    (s : RunState) (result : AcceptedResult)
    → eqb (Option-discrete String-discrete) s.result_approved_sha s.integration_sha ≡ true
    → validate_test_evidence s ≡ ok tt
    → accepted_result_of s incompatible_state ≡ ok result
    → validate_accepted (accepted_state result s) ≡ ok tt
unfolding validate_accepted accepted_state validate_test_evidence validate_complete_test_evidence
    accepted_result_of
validate_accepted-accepted_state s result approved evidence found = ground (
  arith,
  eqb_refl Phase-discrete Phase.accepted,
  eqb_refl NextAction-discrete NextAction.stop,
  eqb_refl (Option-discrete AcceptedResult-discrete) (some result),
)

accepted_state-IsSound :
    (s : RunState) (result : AcceptedResult)
    → IsSound s
    → s.plan_approved ≡ true
    → validate_accepted (accepted_state result s) ≡ ok tt
    → IsSound (accepted_state result s)
unfolding accepted_state lacks_integration
accepted_state-IsSound s result v a h = ground arith

approval_of_guard :
    (s : RunState) {u : Unit {0}}
    → guard result_not_approved (
        not (
          s.next_action != NextAction.revalidate_and_accept
          || s.result_approved_sha != s.integration_sha))
      ≡ ok u
    → eqb (Option-discrete String-discrete) s.result_approved_sha s.integration_sha ≡ true
approval_of_guard s h = ground arith

plan_approved_of_guard :
    (s : RunState) {u : Unit {0}}
    → IsSound s
    → guard result_not_approved (
        not (
          s.next_action != NextAction.revalidate_and_accept
          || s.result_approved_sha != s.integration_sha))
      ≡ ok u
    → s.plan_approved ≡ true
plan_approved_of_guard s v h =
    ground (arith, eqb_sound NextAction-discrete s.next_action NextAction.revalidate_and_accept)

pub accept_after_revalidation-IsSound :
    (s : RunState) → IsSound s → IsSound (accept_after_revalidation s).1
unfolding accept_after_revalidation
accept_after_revalidation-IsSound s v = bind-keeps IsSound (require_running s) _ s v λ _ _.
    bind-keeps IsSound _ _ s v λ _ approved.
      bind-keeps IsSound (validate_test_evidence s) _ s v λ _ evidence.
        bind-keeps IsSound (accepted_result_of s invalid_state) _ s v λ result found.
          accepted_state-IsSound s result v (plan_approved_of_guard s v approved) (
            validate_accepted-accepted_state s result (approval_of_guard s approved) evidence
              (accepted_result_of-code s invalid_state incompatible_state found))
