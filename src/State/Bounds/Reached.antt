-- ===== src/State/Bounds/Reached.antt =====
-- In every state that a run reaches its counters are within their bounds.
use worktree_merge_consensus.Prelude.{◌≡◌, arith, refl, true, String, List}
use worktree_merge_consensus.State.Defs.{RunState, RunFacts, Codec, new}
use worktree_merge_consensus.State.Control.{configure_integration, accept_after_revalidation}
use worktree_merge_consensus.State.Workspace.{prepare-keeps}
use worktree_merge_consensus.State.Operations.{
  Operation, configuring, delivering, recording_plan, requesting_integration, accepting, waiting,
  idling, resuming, cancelling, pausing, blocking, marking_incompatible, recording_error, retrying,
  preparing, perform, Reach, start, next,
}
use worktree_merge_consensus.State.Steering.{Steers-keeps, is_steering, perform-Steers}
use worktree_merge_consensus.State.Soundness.{IsSound}
use worktree_merge_consensus.State.Soundness.Reached.{Reach-IsSound}
use worktree_merge_consensus.State.Bounds.{IsBounded}
use worktree_merge_consensus.State.Bounds.Messages.{apply_message-IsBounded, record_plan-IsBounded}

new-IsBounded : (facts : RunFacts) → IsBounded (new facts)
unfolding new
new-IsBounded facts = ground arith

module _ (c : Codec) (s : RunState) (v : IsSound s) (b : IsBounded s) where
  configure_integration-IsBounded :
      (target : String) (commands : List String)
      → IsBounded (configure_integration target commands s).1
  unfolding configure_integration
  configure_integration-IsBounded target commands = ground arith

  accept_after_revalidation-IsBounded : IsBounded (accept_after_revalidation s).1
  unfolding accept_after_revalidation
  accept_after_revalidation-IsBounded = ground arith

  steering-IsBounded : (op : Operation) → is_steering op ≡ true → IsBounded (perform c op s)
  steering-IsBounded op h =
      Steers-keeps IsBounded s (perform c op s) (λ status phase action reason error. ground arith)
        (perform-Steers s c op h)

  perform-IsBounded : (op : Operation) → IsBounded (perform c op s)
  unfolding perform
  perform-IsBounded (configuring target commands) = configure_integration-IsBounded target commands
  perform-IsBounded (delivering m) = apply_message-IsBounded c s v b m
  perform-IsBounded (recording_plan payload) = record_plan-IsBounded c s v b payload
  perform-IsBounded accepting = accept_after_revalidation-IsBounded
  perform-IsBounded requesting_integration = steering-IsBounded requesting_integration refl
  perform-IsBounded waiting = steering-IsBounded waiting refl
  perform-IsBounded idling = steering-IsBounded idling refl
  perform-IsBounded resuming = steering-IsBounded resuming refl
  perform-IsBounded cancelling = steering-IsBounded cancelling refl
  perform-IsBounded (pausing reason) = steering-IsBounded (pausing reason) refl
  perform-IsBounded (blocking reason) = steering-IsBounded (blocking reason) refl
  perform-IsBounded (marking_incompatible reason) =
      steering-IsBounded (marking_incompatible reason) refl
  perform-IsBounded (recording_error d) = steering-IsBounded (recording_error d) refl
  perform-IsBounded (retrying kind) = steering-IsBounded (retrying kind) refl
  perform-IsBounded (preparing path provided) =
      prepare-keeps IsBounded path provided s b λ w. ground arith

-- In every state that a run reaches its limits are 6 rounds and 2 unchanged reviews, its round is
-- from 1 to 6 and its plan revision at most 6, the plan revision, where there is one, is the round
-- until an integration is recorded, and a review on record has a streak of at least 1.
pub Reach-IsBounded : (c : Codec) (facts : RunFacts) (s : RunState) → Reach c facts s → IsBounded s
Reach-IsBounded c facts s start = new-IsBounded facts
Reach-IsBounded c facts s (next op {s = t} a r) =
    perform-IsBounded c t (Reach-IsSound c r) (Reach-IsBounded c facts t r) op
