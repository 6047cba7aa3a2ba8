-- ===== src/State/Recovery/Correction.antt =====
-- crates/core/src/state.rs: the recoveries of a corrective integration, whose controlled patch was
-- unavailable or not authorised.
use worktree_merge_consensus.Prelude.{
  Bool, true, false, not, ◌&&◌, ◌||◌, String, Option, none, some, List, [], ◌∷◌, any, is_nil,
  is_none, is_some, leb, length, if◌then◌else◌, ◌==◌, ◌!=◌, nat_eq, string_eq, option_eq, list_eq,
}
use worktree_merge_consensus.Prelude.Results.{guard, ok_or}
use worktree_merge_consensus.Text.{is_blank}
use worktree_merge_consensus.Json.{Value, Fields, get, as_str, as_object, end}
use worktree_merge_consensus.Json.Canonical.{canonical_json_hash}
use worktree_merge_consensus.State.Defs.{
  Phase, NextAction, RunStatus, RunState, TestEvidence, VerificationFailure, Codec, phase_eq,
  action_eq, status_eq, role_eq, evidence_eq, component_eq, integer_eq,
}
use worktree_merge_consensus.State.Exec.{Exec, lift, ◌>>=◌, ◌>>◌, not_retryable}
use worktree_merge_consensus.State.Evidence.{
  and_then, parse_test_evidence, failed, validate_complete_test_evidence,
}
use worktree_merge_consensus.State.Persisted.{map_err}
use worktree_merge_consensus.State.Feedback.{machine_verification_summary}
use worktree_merge_consensus.State.Recovery.{is_terminal, revive, finish}

-- A verified integration under review, not accepted, past the first round.
unfoldable pub is_correctable : RunState → Bool
is_correctable s = not (
    not s.plan_approved
    || is_none s.current_plan_payload
    || is_none s.plan_approval_payload
    || is_none s.target_integration_branch
    || is_none s.integration_branch
    || is_none s.integration_sha
    || is_none s.current_integration_payload
    || is_none s.verification_worktree
    || is_nil s.required_test_commands
    || is_nil s.test_evidence
    || is_some s.accepted_result
    || is_some s.result_approved_sha
    || leb s.round 1
    || s.integration_branch != s.target_integration_branch)

disagrees : VerificationFailure → TestEvidence → Bool
disagrees f e = f.command != e.command || f.exit_code != e.exit_code || f.item_id != e.item_id

-- The failed entries of the evidence, in order.
unfoldable pub failed_entries : List TestEvidence → List TestEvidence
failed_entries [] = []
failed_entries (e ∷ es) = if failed e then e ∷ failed_entries es else failed_entries es

-- `zip(expected).any(…)`
any_disagrees : List VerificationFailure → List TestEvidence → Bool
unfolding disagrees
any_disagrees [] es = false
any_disagrees (f ∷ fs) [] = false
any_disagrees (f ∷ fs) (e ∷ es) = disagrees f e || any_disagrees fs es

-- `(test).then_some(value)`
abbrev filter_by : Bool → Value → Option Value
filter_by true v = some v
filter_by false v = none

-- `Option::filter(|summary| summary.is_string())`, as the text.
text_field : Value → String → Option String
text_field v name = and_then (get v name) as_str

is_empty_object : Option Fields → Bool
is_empty_object none = true
is_empty_object (some end) = true
is_empty_object (some _) = false

unfoldable pub is_absent_or_blank : Option String → Bool
is_absent_or_blank none = true
is_absent_or_blank (some s) = is_blank s

-- Feedback of the Reviewer: a nonempty object, not the machine's, with text where it is Markdown.
unfoldable pub is_reviewer_feedback : Value → Bool
unfolding text_field is_empty_object is_absent_or_blank
is_reviewer_feedback feedback = not (
    is_empty_object (as_object feedback)
    || text_field feedback "format" == some "machine_verification"
    || (text_field feedback "format" == some "markdown"
        && is_absent_or_blank (text_field feedback "feedback")))

module _ (c : Codec) where
  unfoldable pub canonical_verification_failures : Value → List TestEvidence → Option Value
  unfolding any_disagrees failed_entries
  canonical_verification_failures value evidence = and_then (c.decode_failures value) λ failures.
      elim (is_nil failures
        || length failures != length (failed_entries evidence)
        || any_disagrees failures (failed_entries evidence)) [
          | true ↦ none
          | false ↦ and_then (c.encode_failures failures) λ canonical.
              filter_by
                (canonical_json_hash c.digest value == canonical_json_hash c.digest canonical)
                canonical
        ]

  same_failures : Option Value → Value → Bool
  same_failures none failures = false
  same_failures (some reported) failures =
      canonical_json_hash c.digest reported == canonical_json_hash c.digest failures

  -- The feedback of a failed verification that reports these failures and this summary.
  unfoldable pub is_machine_feedback : Value → String → Value → Bool
  unfolding text_field same_failures
  is_machine_feedback feedback summary failures =
      text_field feedback "format" == some "machine_verification"
      && text_field feedback "summary" == some machine_verification_summary
      && text_field feedback "verification_summary" == some summary
      && same_failures (get feedback "failed_tests") failures

  unfoldable pub retry_blocked_corrective_patch_tool_unavailable : Exec NextAction
  unfolding text_field
  retry_blocked_corrective_patch_tool_unavailable s =
      (do
        lift (
            guard not_retryable
              (is_terminal "CONTROLLED_PATCH_TOOL_UNAVAILABLE" s && is_none s.last_error))
        lift (guard not_retryable (is_correctable s))
        lift (map_err not_retryable (validate_complete_test_evidence s s.test_evidence))
        worktree ← lift (ok_or s.verification_worktree not_retryable)
        lift (guard not_retryable (not (any (λ e. e.cwd != worktree) s.test_evidence)))
        lift (guard not_retryable (any failed s.test_evidence))
        payload ← lift (ok_or s.current_integration_payload not_retryable)
        evidence ← lift (map_err not_retryable (parse_test_evidence c payload))
        lift (guard not_retryable (evidence == s.test_evidence))
        failures ← lift (
            ok_or
              (and_then (get payload "verification_failures")
                (λ v. canonical_verification_failures v s.test_evidence))
              not_retryable)
        summary ← lift (ok_or (text_field payload "verification_summary") not_retryable)
        feedback ← lift (ok_or s.last_result_feedback not_retryable)
        lift (guard not_retryable (is_machine_feedback feedback summary failures))
        finish (record s {
          status = RunStatus.running;
          phase = Phase.integrate;
          next_action = NextAction.request_primary_integration;
          reason_code = none;
        }))
        s

  unfoldable pub retry_blocked_result_review_patch_not_authorized : Exec NextAction
  retry_blocked_result_review_patch_not_authorized s =
      (do
        lift (guard not_retryable (is_terminal "PATCH_NOT_AUTHORIZED" s && is_none s.last_error))
        lift (guard not_retryable (is_correctable s))
        lift (map_err not_retryable (validate_complete_test_evidence s s.test_evidence))
        lift (guard not_retryable (not (any failed s.test_evidence)))
        worktree ← lift (ok_or s.verification_worktree not_retryable)
        lift (guard not_retryable (not (any (λ e. e.cwd != worktree) s.test_evidence)))
        payload ← lift (ok_or s.current_integration_payload not_retryable)
        evidence ← lift (map_err not_retryable (parse_test_evidence c payload))
        lift (guard not_retryable (evidence == s.test_evidence))
        feedback ← lift (ok_or s.last_result_feedback not_retryable)
        lift (guard not_retryable (is_reviewer_feedback feedback))
        finish (revive Phase.integrate NextAction.request_primary_integration s))
        s
