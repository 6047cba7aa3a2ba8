-- ===== src/State/Review.antt =====
-- crates/core/src/state.rs: `apply_changes_required`, a review that asks for changes.
use worktree_merge_consensus.Prelude.{
  ℕ, Bool, true, false, ◌||◌, String, Option, none, some, leb, if◌then◌else◌, ◌==◌, nat_eq,
  string_eq, option_eq,
}
use worktree_merge_consensus.Prelude.Results.{ok, guard}
use worktree_merge_consensus.Json.{Value}
use worktree_merge_consensus.Protocol.{ProtocolMessage, message_phase_eq}
use worktree_merge_consensus.State.Defs.{Phase, NextAction, RunState, Codec, phase_eq, action_eq}
use worktree_merge_consensus.State.Exec.{Check, Exec, lift, ◌>>◌, wrong_phase}
use worktree_merge_consensus.State.Requirements.{
  require_round, require_plan_revision, require_current_integration,
}
use worktree_merge_consensus.State.Feedback.{review_fingerprint}
use worktree_merge_consensus.State.Transitions.{
  increment, saturating_increment, become, blocked_state,
}

-- The count of reviews in a row that raised the same issues on the same plan.
streak_state : String → RunState → RunState
streak_state fingerprint s =
    if s.last_review_fingerprint == some fingerprint
    then record s { unchanged_review_streak = saturating_increment s.unchanged_review_streak }
    else record s { last_review_fingerprint = some fingerprint; unchanged_review_streak = 1 }

increment_revision : Option ℕ → Option ℕ
increment_revision none = none
increment_revision (some revision) = some (increment revision)

-- The next round: another plan, or another integration under the plan approved.
revised_state : Bool → Value → RunState → RunState
unfolding increment_revision
revised_state true payload s = record s {
  round = increment s.round;
  result_approved_sha = none;
  last_plan_feedback = some payload;
  plan_revision = increment_revision s.plan_revision;
  plan_approved = false;
  plan_approval_payload = none;
  next_action = NextAction.request_primary_plan;
}
revised_state false payload s = record s {
  round = increment s.round;
  result_approved_sha = none;
  last_result_feedback = some payload;
  phase = Phase.integrate;
  next_action = NextAction.request_primary_integration;
}

-- Blocked without progress or at the limit of the rounds, or revised.
review_outcome : Value → RunState → RunState
unfolding blocked_state revised_state
review_outcome payload s =
    if leb s.no_progress_rounds s.unchanged_review_streak
    then blocked_state "NO_PROGRESS" s
    else if leb s.max_review_rounds s.round
    then blocked_state "ROUND_LIMIT" s
    else revised_state (s.phase == Phase.plan_review) payload s

module _ (c : Codec) where
  changes_state : Value → RunState → RunState
  unfolding review_outcome streak_state
  changes_state payload s = review_outcome payload (streak_state (review_fingerprint c s payload) s)

  review_target : RunState → ProtocolMessage → Check (Unit {0})
  review_target s m = elim (s.phase == Phase.result_review) [
    | true ↦ require_current_integration s m
    | false ↦ ok tt
  ]

  unfoldable pub apply_changes_required : ProtocolMessage → Exec NextAction
  unfolding changes_state review_target
  apply_changes_required m s =
      (do
        lift (guard wrong_phase (s.phase == Phase.plan_review || s.phase == Phase.result_review))
        lift (require_round m s.round)
        lift (require_plan_revision s m)
        lift (review_target s m)
        become (changes_state m.payload s))
        s
