-- ===== src/State/Liveness.antt =====
-- crates/core/src/state.rs: operations that must succeed. An approved result is accepted, and an
-- interrupted run goes on where it was.
use worktree_merge_consensus.Prelude.{
  ◌≡◌, arith, some, none, String, String-discrete, Option-discrete, eqb, eqb_complete, refl,
}
use worktree_merge_consensus.Prelude.Results.{ok}
use worktree_merge_consensus.State.Defs.{
  RunState, RunFacts, Codec, RunStatus, NextAction, RunStatus-discrete, NextAction-discrete,
}
use worktree_merge_consensus.State.Evidence.{
  validate_test_evidence, validate_complete_test_evidence,
}
use worktree_merge_consensus.State.Persisted.{lacks_integration, accepted_result_of}
use worktree_merge_consensus.State.Requirements.{require_running}
use worktree_merge_consensus.State.Control.{
  accept_after_revalidation, pause, resume, wait_for_thread, thread_became_idle,
}
use worktree_merge_consensus.State.Operations.{Reach}
use worktree_merge_consensus.State.Soundness.{IsSound}
use worktree_merge_consensus.State.Soundness.Reached.{Reach-IsSound}

revalidation-tests :
    (s : RunState)
    → IsSound s
    → s.next_action ≡ NextAction.revalidate_and_accept
    → validate_test_evidence s ≡ ok tt
unfolding validate_test_evidence validate_complete_test_evidence
revalidation-tests s v h = ground arith

accept-succeeds :
    (s : RunState)
    → IsSound s
    → s.status ≡ RunStatus.running
    → s.next_action ≡ NextAction.revalidate_and_accept
    → ((accept_after_revalidation s).0 ≡ ok NextAction.stop)
      × ((accept_after_revalidation s).1.status ≡ RunStatus.accepted)
unfolding accept_after_revalidation require_running accepted_result_of lacks_integration
accept-succeeds s v run h = ground (
  arith,
  revalidation-tests s v h,
  eqb_complete RunStatus-discrete s.status RunStatus.running,
  eqb_complete NextAction-discrete s.next_action NextAction.revalidate_and_accept,
  eqb_complete (Option-discrete String-discrete) s.result_approved_sha s.integration_sha,
)

-- A reached run that is running and waits for the revalidation of its approved result is accepted by
-- `accept_after_revalidation`, which returns STOP.
pub accept_after_revalidation-Reach :
    (c : Codec) (facts : RunFacts) (s : RunState)
    → Reach c facts s
    → s.status ≡ RunStatus.running
    → s.next_action ≡ NextAction.revalidate_and_accept
    → ((accept_after_revalidation s).0 ≡ ok NextAction.stop)
      × ((accept_after_revalidation s).1.status ≡ RunStatus.accepted)
accept_after_revalidation-Reach c facts s r run h = accept-succeeds s (Reach-IsSound c r) run h

pause-running :
    (s : RunState) (reason : String)
    → s.status ≡ RunStatus.running
    → (pause reason s).1
      ≡ record s { status = RunStatus.paused_user_action; reason_code = some reason }
unfolding pause
pause-running s reason run =
    ground (arith, eqb_complete RunStatus-discrete s.status RunStatus.running)

wait_for_thread-running :
    (s : RunState)
    → s.status ≡ RunStatus.running
    → (wait_for_thread s).1 ≡ record s { status = RunStatus.waiting_thread }
unfolding wait_for_thread require_running
wait_for_thread-running s run =
    ground (arith, eqb_complete RunStatus-discrete s.status RunStatus.running)

-- A running run that is paused and resumed, or that waits for a thread which becomes idle, is the
-- run before, save that a resumed run has no reason and no last error; and both succeed.
pub resume-pause :
    (s : RunState) (reason : String)
    → s.status ≡ RunStatus.running
    → (resume (pause reason s).1
        ≡ (ok s.next_action, record s { reason_code = none; last_error = none }))
      × (thread_became_idle (wait_for_thread s).1 ≡ (ok tt, s))
unfolding resume thread_became_idle eqb RunStatus-discrete
resume-pause s reason run = (
  rw (pause-running s reason run) (rw run refl),
  rw (wait_for_thread-running s run) (rw run refl),
)
