-- ===== src/State/Outcomes.antt =====
-- crates/core/src/state.rs: what a review that asks for changes and a verification come to.
use worktree_merge_consensus.Prelude.{
  ◌+◌, ◌<◌, ◌≡◌, ◌≢◌, none, some, arith, true, false, String, List, any, eqb_sound, eqb_complete,
  String-discrete, Option-discrete, string_eq, option_eq,
}
use worktree_merge_consensus.Prelude.Results.{ok, is_ok}
use worktree_merge_consensus.Protocol.{ProtocolMessage}
use worktree_merge_consensus.State.Defs.{
  RunState, RunFacts, Codec, NextAction, Phase, RunStatus, TestEvidence, Phase-discrete,
}
use worktree_merge_consensus.State.Evidence.{
  failed, parse_test_evidence, is_incomplete, validate_complete_test_evidence,
}
use worktree_merge_consensus.State.Evidence.Complete.{IsComplete, is_incomplete-IsComplete}
use worktree_merge_consensus.State.Feedback.{review_fingerprint}
use worktree_merge_consensus.State.Integration.{record_verification}
use worktree_merge_consensus.State.Review.{apply_changes_required}
use worktree_merge_consensus.State.Operations.{Reach}
use worktree_merge_consensus.State.Bounds.{IsBounded}
use worktree_merge_consensus.State.Bounds.Reached.{Reach-IsBounded}

abbrev pub IsBlockedFor : String → RunState → Type 0
IsBlockedFor reason t = (t.status ≡ RunStatus.blocked) × (t.reason_code ≡ some reason)

-- The run goes on a round later, at another plan or at another integration of the plan approved.
abbrev pub GoesOn : RunState → RunState → Type 0
GoesOn s t =
    (t.status ≡ s.status)
    × (t.round ≡ s.round + 1)
    × ((s.phase ≡ Phase.plan_review)
        → (t.phase ≡ Phase.plan_review)
          × (t.next_action ≡ NextAction.request_primary_plan)
          × (t.plan_approved ≡ false))
    × ((s.phase ≡ Phase.result_review)
        → (t.phase ≡ Phase.integrate)
          × (t.next_action ≡ NextAction.request_primary_integration)
          × (t.plan_approved ≡ s.plan_approved)
          × (t.result_approved_sha ≡ none))

module _ (c : Codec) (m : ProtocolMessage) (s : RunState) (b : IsBounded s) where
  changes-repeated :
      s.last_review_fingerprint ≡ some (review_fingerprint c s m.payload)
      → is_ok (apply_changes_required c m s).0 ≡ true
      → IsBlockedFor "NO_PROGRESS" (apply_changes_required c m s).1
  unfolding apply_changes_required
  changes-repeated h taken = ground (
    arith,
    eqb_complete (Option-discrete String-discrete) s.last_review_fingerprint
        (some (review_fingerprint c s m.payload)),
  )

  changes-last :
      s.last_review_fingerprint ≢ some (review_fingerprint c s m.payload)
      → s.round ≡ 6
      → is_ok (apply_changes_required c m s).0 ≡ true
      → IsBlockedFor "ROUND_LIMIT" (apply_changes_required c m s).1
  unfolding apply_changes_required
  changes-last h last taken = ground (
    arith,
    eqb_sound (Option-discrete String-discrete) s.last_review_fingerprint
        (some (review_fingerprint c s m.payload)),
  )

  changes-fresh :
      s.last_review_fingerprint ≢ some (review_fingerprint c s m.payload)
      → s.round < 6
      → is_ok (apply_changes_required c m s).0 ≡ true
      → GoesOn s (apply_changes_required c m s).1
  unfolding apply_changes_required
  changes-fresh h more taken = ground (
    arith,
    eqb_sound (Option-discrete String-discrete) s.last_review_fingerprint
        (some (review_fingerprint c s m.payload)),
    eqb_sound Phase-discrete s.phase Phase.plan_review,
    eqb_complete Phase-discrete s.phase Phase.plan_review,
  )

-- A review that a reached run takes blocks it with NO_PROGRESS where its fingerprint is the one on
-- record, and with ROUND_LIMIT where it is another and the round is 6; where it is another and the
-- round is below 6 the run goes on a round later, at another plan or another integration.
pub apply_changes_required-outcomes :
    (c : Codec) (facts : RunFacts) (s : RunState) (m : ProtocolMessage)
    → Reach c facts s
    → is_ok (apply_changes_required c m s).0 ≡ true
    → ((s.last_review_fingerprint ≡ some (review_fingerprint c s m.payload))
        → IsBlockedFor "NO_PROGRESS" (apply_changes_required c m s).1)
      × ((s.last_review_fingerprint ≢ some (review_fingerprint c s m.payload))
          → s.round ≡ 6
          → IsBlockedFor "ROUND_LIMIT" (apply_changes_required c m s).1)
      × ((s.last_review_fingerprint ≢ some (review_fingerprint c s m.payload))
          → s.round < 6
          → GoesOn s (apply_changes_required c m s).1)
apply_changes_required-outcomes c facts s m r taken =
    let b = Reach-IsBounded c facts s r in
    (
      λ h. changes-repeated c m s b h taken,
      λ h last. changes-last c m s b h last taken,
      λ h more. changes-fresh c m s b h more taken,
    )

-- The run is at `t` what its evidence asks for after a verification at `s`.
abbrev pub Follows : RunState → List TestEvidence → RunState → Type 0
Follows s evidence t =
    (any failed evidence ≡ false
      → (t.status ≡ s.status)
        × (t.phase ≡ Phase.result_review)
        × (t.next_action ≡ NextAction.request_reviewer_result_verdict)
        × (t.round ≡ s.round))
    × (any failed evidence ≡ true → s.round ≡ 6 → IsBlockedFor "ROUND_LIMIT" t)
    × (any failed evidence ≡ true
        → s.round < 6
        → (t.status ≡ s.status)
          × (t.phase ≡ Phase.integrate)
          × (t.next_action ≡ NextAction.request_primary_integration)
          × (t.round ≡ s.round + 1))

verification-outcomes :
    (c : Codec) (m : ProtocolMessage) (s : RunState) (evidence : List TestEvidence)
    → IsBounded s
    → parse_test_evidence c m.payload ≡ ok evidence
    → is_ok (record_verification c m s).0 ≡ true
    → (is_incomplete s.required_test_commands evidence ≡ false)
      × ((record_verification c m s).1.test_evidence ≡ evidence)
      × Follows s evidence (record_verification c m s).1
unfolding record_verification validate_complete_test_evidence
verification-outcomes c m s evidence b h taken =
    (ground arith, ground arith, (λ a. ground arith, λ a d. ground arith, λ a d. ground arith))

-- Evidence that a reached run takes covers each frozen command once and is kept. If all of it
-- succeeded the reviewer is asked for a verdict; if some failed the run is blocked with ROUND_LIMIT in
-- round 6, and before it goes back to the integration a round later.
pub record_verification-outcomes :
    (c : Codec) (facts : RunFacts) (s : RunState) (m : ProtocolMessage)
    (evidence : List TestEvidence)
    → Reach c facts s
    → parse_test_evidence c m.payload ≡ ok evidence
    → is_ok (record_verification c m s).0 ≡ true
    → IsComplete s.required_test_commands evidence
      × ((record_verification c m s).1.test_evidence ≡ evidence)
      × Follows s evidence (record_verification c m s).1
record_verification-outcomes c facts s m evidence r h taken =
    let (complete, kept, follows) =
      verification-outcomes c m s evidence (Reach-IsBounded c facts s r) h taken in
    ((is_incomplete-IsComplete s.required_test_commands evidence).0 complete, kept, follows)
