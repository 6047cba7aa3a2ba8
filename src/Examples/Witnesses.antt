-- ===== src/Examples/Witnesses.antt =====
-- The theorems of the state machine at one run, from its start to acceptance.
use worktree_merge_consensus.Prelude.{
  none, ◌≡◌, ◌≢◌, ◌≤◌, ◌<◌, ◌↔◌, ap, arith, refl, true, false, some, [], ◌∷◌, length, String,
}
use worktree_merge_consensus.Prelude.Results.{ok, err}
use worktree_merge_consensus.Json.{Fields, get, get_field, as_str, as_u64}
use worktree_merge_consensus.Protocol.Invariants.{and_then}
use worktree_merge_consensus.Protocol.Approvals.{Repeats}
use worktree_merge_consensus.State.Defs.{RunStatus, Phase, NextAction, AcceptedResult}
use worktree_merge_consensus.State.Exec.{wrong_phase, incompatible_state}
use worktree_merge_consensus.State.Evidence
use worktree_merge_consensus.State.Evidence.{is_incomplete, parse_test_evidence}
use worktree_merge_consensus.State.Evidence.Complete.{IsComplete, is_incomplete-IsComplete}
use worktree_merge_consensus.State.Persisted.{validate_persisted}
use worktree_merge_consensus.State.Transitions.{block}
use worktree_merge_consensus.State.Control.{cancel, mark_incompatible}
use worktree_merge_consensus.State.Feedback.{review_fingerprint}
use worktree_merge_consensus.State.Integration.{record_verification}
use worktree_merge_consensus.State.Review.{apply_changes_required}
use worktree_merge_consensus.State.Requirements.Facts.{Binds}
use worktree_merge_consensus.State.Messages.{apply_message}
use worktree_merge_consensus.State.Operations.{
  Retry, retry, delivering, resuming, is_allowed, perform,
}
use worktree_merge_consensus.State.Atomic.{apply_message-IsAtomic}
use worktree_merge_consensus.State.Soundness.Reached.{validate_persisted-Reach, Reach-IsSound}
use worktree_merge_consensus.State.Soundness.Decisions.{Decides, retry-Reach-Decides}
use worktree_merge_consensus.State.Frame.{Extends}
use worktree_merge_consensus.State.Frame.Operations.{perform-Extends}
use worktree_merge_consensus.State.Accepted.{IsBound}
use worktree_merge_consensus.State.Final.{IsFinal, perform-IsFinal, accepted-refuses}
use worktree_merge_consensus.State.Bounds.{IsBounded}
use worktree_merge_consensus.State.Bounds.Reached.{Reach-IsBounded}
use worktree_merge_consensus.State.Consent.{IsPlanApproval, IsResultApproval}
use worktree_merge_consensus.State.Consent.Reached.{Took, accepted-Consensus}
use worktree_merge_consensus.State.Progress.{Advances, apply_message-Advances}
use worktree_merge_consensus.State.Progress.Turns.{Turns, length-Turns-Reach}
use worktree_merge_consensus.State.Approvals.{approved_result-exact, approved_plan-exact}
use worktree_merge_consensus.State.Outcomes.{
  IsBlockedFor, GoesOn, Follows, apply_changes_required-outcomes, record_verification-outcomes,
}
use worktree_merge_consensus.State.Liveness.{accept_after_revalidation-Reach, resume-pause}
use worktree_merge_consensus.State.Freshness.{IsCurrent, apply_message-IsCurrent}
use worktree_merge_consensus.State.Commands.{IsFrozen}
use worktree_merge_consensus.State.Commands.Reached.{Reach-IsFrozen}
use worktree_merge_consensus.State.Control.{
  accept_after_revalidation, pause, resume, wait_for_thread, thread_became_idle,
}
use worktree_merge_consensus.Examples.Wire.{example_codec}
use worktree_merge_consensus.Examples.Run.{
  approved, facts, after, configured, planned, integrated, prepared, workspace, integration_sha,
  reviewed, accepted_history, stopped, plan_changes, approved_plan, verified, approved_result,
  all_allowed, reached,
}
use worktree_merge_consensus.Examples.Trace.{trace, evidence}

accepted_reached : all_allowed accepted_history ≡ true
accepted_reached = trace.18

accepted-Consensus_example :
    (r : AcceptedResult) × ((after accepted_history).accepted_result ≡ some r)
    × IsBound (after accepted_history) r
    × Took example_codec IsPlanApproval facts
        (after accepted_history)
        (reached accepted_history accepted_reached)
    × Took example_codec
        (IsResultApproval r.integration_sha)
        facts
        (after accepted_history)
        (reached accepted_history accepted_reached)
accepted-Consensus_example =
    accepted-Consensus example_codec facts (after accepted_history)
      (reached accepted_history accepted_reached) trace.0

validate_persisted-Reach_example : validate_persisted (after accepted_history) ≡ ok tt
validate_persisted-Reach_example =
    validate_persisted-Reach example_codec facts (after accepted_history)
      (reached accepted_history accepted_reached)

-- An approval of a result before there is one.
apply_message-IsAtomic_example :
    (apply_message example_codec approved_result (after planned)).1 ≡ after planned
apply_message-IsAtomic_example =
    apply_message-IsAtomic example_codec (after planned) approved_result wrong_phase trace.1

configured_reached : all_allowed configured ≡ true
unfolding is_allowed
configured_reached = refl

verified-Turns : Turns example_codec (after integrated) (verified 0 ∷ [])
unfolding after perform
verified-Turns = (
  workspace,
  ok (workspace 7 integration_sha),
  (trace.15, λ p. ground (arith, ap (λ s. s.next_action) p, trace.16, trace.17), tt),
)

integrated_reached : all_allowed integrated ≡ true
unfolding is_allowed
integrated_reached = refl

length-Turns-Reach_example : length (verified 0 ∷ []) ≤ 39
length-Turns-Reach_example =
    length-Turns-Reach example_codec facts (after integrated) (verified 0 ∷ [])
      (reached integrated integrated_reached) verified-Turns

Reach-IsBounded_example : IsBounded (after accepted_history)
Reach-IsBounded_example =
    Reach-IsBounded example_codec facts (after accepted_history)
      (reached accepted_history accepted_reached)

perform-IsFinal_example :
    IsFinal (after accepted_history) (perform example_codec resuming (after accepted_history))
unfolding is_allowed
perform-IsFinal_example =
    perform-IsFinal (after accepted_history) trace.0 example_codec resuming refl

accepted-refuses_example :
    (validate_persisted (cancel (after accepted_history)) ≡ err incompatible_state)
    × ((reason : String)
        → validate_persisted (block reason (after accepted_history)).1 ≡ err incompatible_state)
    × ((reason : String)
        → validate_persisted (mark_incompatible reason (after accepted_history))
          ≡ err incompatible_state)
accepted-refuses_example =
    accepted-refuses example_codec facts (after accepted_history)
      (reached accepted_history accepted_reached) trace.0

approved_result-exact_example :
    (payload : Fields) × Repeats approved_result payload
    × Binds (after reviewed).facts approved_result
    × (and_then (get_field "approved_integration_branch" payload) as_str
        ≡ (after reviewed).integration_branch)
    × (and_then (get_field "approved_integration_sha" payload) as_str
        ≡ (after reviewed).integration_sha)
    × ((apply_message example_codec approved_result (after reviewed)).1.result_approved_sha
        ≡ (after reviewed).integration_sha)
    × ((apply_message example_codec approved_result (after reviewed)).1.next_action
        ≡ NextAction.revalidate_and_accept)
approved_result-exact_example =
    approved_result-exact example_codec (after reviewed) approved_result approved_result trace.5
      refl trace.6

approved_plan-exact_example :
    (payload : Fields) × Repeats (approved_plan 1) payload
    × Binds (after planned).facts (approved_plan 1)
    × (and_then (get_field "approved_plan_revision" payload) as_u64 ≡ (after planned).plan_revision)
    × (Evidence.and_then (get (approved_plan 1).payload "approved_plan_hash") as_str
        ≡ (after planned).current_plan_hash)
    × ((approved_plan 1).envelope.round ≡ (after planned).round)
    × ((apply_message example_codec (approved_plan 1) (after planned)).1.plan_approved ≡ true)
    × ((apply_message example_codec (approved_plan 1) (after planned)).1.phase ≡ Phase.integrate)
approved_plan-exact_example =
    approved_plan-exact example_codec (after planned) (approved_plan 1) (approved_plan 1) trace.7
      refl trace.8

planned_reached : all_allowed planned ≡ true
unfolding is_allowed
planned_reached = refl

apply_changes_required-outcomes_example :
    (((after planned).last_review_fingerprint
        ≡ some (review_fingerprint example_codec (after planned) (plan_changes 1).payload))
      → IsBlockedFor "NO_PROGRESS"
          (apply_changes_required example_codec (plan_changes 1) (after planned)).1)
    × (((after planned).last_review_fingerprint
          ≢ some (review_fingerprint example_codec (after planned) (plan_changes 1).payload))
        → (after planned).round ≡ 6
        → IsBlockedFor "ROUND_LIMIT"
            (apply_changes_required example_codec (plan_changes 1) (after planned)).1)
    × (((after planned).last_review_fingerprint
          ≢ some (review_fingerprint example_codec (after planned) (plan_changes 1).payload))
        → (after planned).round < 6
        → GoesOn
            (after planned)
            (apply_changes_required example_codec (plan_changes 1) (after planned)).1)
apply_changes_required-outcomes_example =
    apply_changes_required-outcomes example_codec facts (after planned) (plan_changes 1)
      (reached planned planned_reached) trace.9

prepared_reached : all_allowed prepared ≡ true
prepared_reached = trace.20

record_verification-outcomes_example :
    IsComplete (after prepared).required_test_commands evidence
    × ((record_verification example_codec (verified 0) (after prepared)).1.test_evidence ≡ evidence)
    × Follows
        (after prepared)
        evidence
        (record_verification example_codec (verified 0) (after prepared)).1
record_verification-outcomes_example =
    record_verification-outcomes example_codec facts (after prepared) (verified 0) evidence
      (reached prepared prepared_reached) trace.10 trace.11

retry-Reach-Decides_example :
    Decides (after stopped) (retry example_codec Retry.integration_invalid_response (after stopped))
retry-Reach-Decides_example =
    retry-Reach-Decides example_codec facts (after stopped) Retry.integration_invalid_response
      (reached stopped trace.12)

is_incomplete-IsComplete_example :
    (is_incomplete ("cargo test" ∷ []) evidence ≡ false) ↔ IsComplete ("cargo test" ∷ []) evidence
is_incomplete-IsComplete_example = is_incomplete-IsComplete ("cargo test" ∷ []) evidence

perform-Extends_example :
    Extends (after planned) (perform example_codec (delivering (approved_plan 1)) (after planned))
perform-Extends_example =
    perform-Extends example_codec (after planned) (delivering (approved_plan 1))

apply_message-Advances_example :
    Advances (after planned) (apply_message example_codec (approved_plan 1) (after planned))
apply_message-Advances_example =
    apply_message-Advances example_codec (approved_plan 1) (after planned)
      (Reach-IsSound example_codec (reached planned planned_reached))
      (Reach-IsBounded example_codec facts (after planned) (reached planned planned_reached))

approved_reached : all_allowed approved ≡ true
approved_reached = trace.19

accept_after_revalidation-Reach_example :
    ((accept_after_revalidation (after approved)).0 ≡ ok NextAction.stop)
    × ((accept_after_revalidation (after approved)).1.status ≡ RunStatus.accepted)
accept_after_revalidation-Reach_example =
    accept_after_revalidation-Reach example_codec facts (after approved)
      (reached approved approved_reached) trace.13 trace.14

resume-pause_example :
    (resume (pause "OPERATOR" (after approved)).1 ≡ (
      ok (after approved).next_action,
      record (after approved) { reason_code = none; last_error = none },
    ))
    × (thread_became_idle (wait_for_thread (after approved)).1 ≡ (ok tt, after approved))
resume-pause_example = resume-pause (after approved) "OPERATOR" trace.13

apply_message-IsCurrent_example :
    Binds (after reviewed).facts approved_result
    × IsCurrent (after reviewed) approved_result.envelope.message_type approved_result
apply_message-IsCurrent_example =
    apply_message-IsCurrent example_codec (after reviewed) approved_result approved_result trace.5
      trace.6

Reach-IsFrozen_example : IsFrozen (after approved).required_test_commands
Reach-IsFrozen_example =
    Reach-IsFrozen example_codec facts (after approved) (reached approved approved_reached)
