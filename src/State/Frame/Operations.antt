-- ===== src/State/Frame/Operations.antt =====
-- Every operation keeps what a run's operations never change, over any number of them.
use worktree_merge_consensus.Prelude.{◌≡◌, ◌∙◌, refl, arith, true}
use worktree_merge_consensus.State.Defs.{RunState, RunFacts, Codec, new}
use worktree_merge_consensus.State.Control.{configure_integration, accept_after_revalidation}
use worktree_merge_consensus.State.Workspace.{prepare-keeps}
use worktree_merge_consensus.State.Operations.{
  Operation, configuring, delivering, recording_plan, requesting_integration, accepting, waiting,
  idling, resuming, cancelling, pausing, blocking, marking_incompatible, recording_error, retrying,
  preparing, perform, Reach, start, next,
}
use worktree_merge_consensus.State.Steering.{is_steering, Steers-keeps, perform-Steers}
use worktree_merge_consensus.State.Frame.{Extends, IsPrefix-refl}
use worktree_merge_consensus.State.Frame.Messages.{apply_message-Extends, record_plan-Extends}

module _ (c : Codec) (s : RunState) where
  steering-Extends : (op : Operation) → is_steering op ≡ true → Extends s (perform c op s)
  steering-Extends op h =
      Steers-keeps (Extends s) s (perform c op s)
        (λ status phase action reason error. ground (arith, IsPrefix-refl s.required_test_commands))
        (perform-Steers s c op h)

  -- No operation changes the frozen facts, the schema, the limits of the rounds or, once it is set,
  -- the target branch; and of the commands frozen once the target is set none is dropped, changed or
  -- moved.
  pub perform-Extends : (op : Operation) → Extends s (perform c op s)
  unfolding perform
  perform-Extends (configuring target commands) =
      unfold configure_integration in ground (arith, IsPrefix-refl s.required_test_commands)
  perform-Extends (delivering m) = apply_message-Extends c s m
  perform-Extends (recording_plan payload) = record_plan-Extends c s payload
  perform-Extends accepting =
      unfold accept_after_revalidation in ground (arith, IsPrefix-refl s.required_test_commands)
  perform-Extends requesting_integration = steering-Extends requesting_integration refl
  perform-Extends waiting = steering-Extends waiting refl
  perform-Extends idling = steering-Extends idling refl
  perform-Extends resuming = steering-Extends resuming refl
  perform-Extends cancelling = steering-Extends cancelling refl
  perform-Extends (pausing reason) = steering-Extends (pausing reason) refl
  perform-Extends (blocking reason) = steering-Extends (blocking reason) refl
  perform-Extends (marking_incompatible reason) =
      steering-Extends (marking_incompatible reason) refl
  perform-Extends (recording_error d) = steering-Extends (recording_error d) refl
  perform-Extends (retrying kind) = steering-Extends (retrying kind) refl
  perform-Extends (preparing path provided) =
      prepare-keeps (Extends s) path provided s
        (ground (arith, IsPrefix-refl s.required_test_commands))
        λ w. ground (arith, IsPrefix-refl s.required_test_commands)

-- The facts of a reached run are those that it was started with.
pub Reach-facts : (c : Codec) {facts : RunFacts} {s : RunState} → Reach c facts s → s.facts ≡ facts
unfolding new
Reach-facts c start = refl
Reach-facts c (next op {s} a r) = (perform-Extends c s op).facts ∙ Reach-facts c r
