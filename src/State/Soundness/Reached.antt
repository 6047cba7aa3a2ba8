-- ===== src/State/Soundness/Reached.antt =====
-- Every operation keeps a run's state sound, so each state that a run reaches is sound.
use worktree_merge_consensus.Prelude.{◌≡◌, ◌≢◌, arith, true, eqb_complete, ◌!=◌}
use worktree_merge_consensus.Prelude.Results.{ok}
use worktree_merge_consensus.State.Defs.{
  RunState, RunFacts, Codec, RunStatus, RunStatus-discrete, status_eq,
}
use worktree_merge_consensus.State.Persisted.{validate_persisted}
use worktree_merge_consensus.State.Workspace.{prepare-keeps}
use worktree_merge_consensus.State.Operations.{
  Operation, configuring, delivering, recording_plan, requesting_integration, accepting, waiting,
  idling, resuming, cancelling, pausing, blocking, marking_incompatible, recording_error, retrying,
  preparing, is_allowed, perform, Reach, start, next,
}
use worktree_merge_consensus.State.Soundness.{IsSound}
use worktree_merge_consensus.State.Soundness.Planning.{
  request_integration-IsSound, record_plan-IsSound,
}
use worktree_merge_consensus.State.Soundness.Messages.{apply_message-IsSound, block-IsSound}
use worktree_merge_consensus.State.Soundness.Control.{
  new-IsSound, configure_integration-IsSound, pause-IsSound, record_error-IsSound, prepared-IsSound,
  wait_for_thread-IsSound, thread_became_idle-IsSound, resume-IsSound, cancel-IsSound,
  mark_incompatible-IsSound, accept_after_revalidation-IsSound,
}
use worktree_merge_consensus.State.Soundness.Recovery.{retry-IsSound}
use worktree_merge_consensus.State.Soundness.Stored.{validate_persisted-IsSound}

open_status :
    (s : RunState) → (s.status != RunStatus.accepted) ≡ true → s.status ≢ RunStatus.accepted
open_status s h = ground (arith, eqb_complete RunStatus-discrete s.status RunStatus.accepted)

module _ (c : Codec) where
  -- An operation that is allowed keeps the state sound, whether it returns or fails.
  pub perform-IsSound :
      (op : Operation) (s : RunState)
      → is_allowed op s ≡ true
      → IsSound s
      → IsSound (perform c op s)
  unfolding perform is_allowed
  perform-IsSound (configuring target commands) s a v =
      configure_integration-IsSound s v target commands
  perform-IsSound (delivering m) s a v = apply_message-IsSound s v c m
  perform-IsSound (recording_plan payload) s a v = record_plan-IsSound c payload s v
  perform-IsSound requesting_integration s a v = request_integration-IsSound s v
  perform-IsSound accepting s a v = accept_after_revalidation-IsSound s v
  perform-IsSound waiting s a v = wait_for_thread-IsSound s v
  perform-IsSound idling s a v = thread_became_idle-IsSound s v
  perform-IsSound resuming s a v = resume-IsSound s v
  perform-IsSound cancelling s a v = cancel-IsSound s v (open_status s a)
  perform-IsSound (pausing reason) s a v = pause-IsSound s v reason
  perform-IsSound (blocking reason) s a v = block-IsSound s v reason (open_status s a)
  perform-IsSound (marking_incompatible reason) s a v =
      mark_incompatible-IsSound s v reason (open_status s a)
  perform-IsSound (recording_error d) s a v = record_error-IsSound s v d
  perform-IsSound (retrying kind) s a v = retry-IsSound s v c kind
  perform-IsSound (preparing path provided) s a v =
      prepare-keeps IsSound path provided s v λ w. prepared-IsSound s v w

  pub Reach-IsSound : {facts : RunFacts} {s : RunState} → Reach c facts s → IsSound s
  Reach-IsSound {facts} start = new-IsSound facts
  Reach-IsSound (next op {s} a r) = perform-IsSound op s a (Reach-IsSound r)

  -- Every state that a run reaches from its start by the operations, in any order and with any
  -- messages, where it is not cancelled, blocked or marked once accepted, passes `validate_persisted`.
  pub validate_persisted-Reach :
      (facts : RunFacts) (s : RunState) → Reach c facts s → validate_persisted s ≡ ok tt
  validate_persisted-Reach facts s r = validate_persisted-IsSound s (Reach-IsSound r)
