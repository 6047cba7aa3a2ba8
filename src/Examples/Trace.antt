-- ===== src/Examples/Trace.antt =====
-- What the example's run computes to, step by step.
use worktree_merge_consensus.Protocol.{MessagePhase-discrete}
use native.Mathlib.Decide.{ℕ_discrete}
use worktree_merge_consensus.Json.Canonical.{canonical_json_hash}
use worktree_merge_consensus.State.Control.{configure_integration, accept_after_revalidation}
use worktree_merge_consensus.State.Planning.{
  expected_role, apply_contract, apply_plan, apply_plan_approval,
}
use worktree_merge_consensus.State.Requirements.{
  require_running, require_phase, require_round, require_plan_revision, verify_immutable_envelope,
  verify_blocked_envelope,
}
use worktree_merge_consensus.State.Workspace.{prepare_verification_workspace, is_destination}
use worktree_merge_consensus.State.Operations.{is_allowed, perform}
use worktree_merge_consensus.State.Persisted.{accepted_result_of}
use worktree_merge_consensus.Protocol.Invariants.{is_blank_entry, validate_invariants}
use worktree_merge_consensus.Protocol.Reading.{validate_message}
use worktree_merge_consensus.Text.{is_blank}
use worktree_merge_consensus.Json.{as_object, is_object, as_array, as_str, as_u64, get}
use worktree_merge_consensus.Prelude.{
  ◌≡◌, refl, true, List, [], ◌∷◌, any, count_of, contains, eqb, String-discrete, Option-discrete,
  List-discrete,
}
use worktree_merge_consensus.Prelude.Results.{ok, err, is_ok}
use worktree_merge_consensus.State.Defs.{
  RunStatus, NextAction, TestEvidence, pos, root_dir, normal, new, RunStatus-discrete,
  Phase-discrete, NextAction-discrete, ℤ-discrete, Component-discrete,
}
use worktree_merge_consensus.State.Exec.{wrong_phase}
use worktree_merge_consensus.State.Evidence.{
  parse_test_evidence, string_array_field, freeze_commands, runs_of, is_incomplete,
  validate_complete_test_evidence, failed, validate_test_evidence,
}
use worktree_merge_consensus.State.Integration.{
  record_verification, apply_integration, apply_result_approval,
}
use worktree_merge_consensus.State.Review.{apply_changes_required}
use worktree_merge_consensus.State.Messages.{revalidate_message, apply_message}
use worktree_merge_consensus.Examples.Wire.{example_codec}
use worktree_merge_consensus.Examples.Run.{
  approved, after, configured, planned, prepared, reviewed, stopped, accepted_history,
  contract_ready, plan_changes, approved_plan, verified, approved_result, all_allowed,
}

abbrev pub evidence : List TestEvidence
evidence =
    record {
      command = "cargo test";
      exit_code = pos 0;
      turn_id = "turn";
      item_id = "item";
      cwd = root_dir ∷ normal "clone" ∷ [];
    }
    ∷ []

pub trace :
    ((after accepted_history).status ≡ RunStatus.accepted)
    × ((apply_message example_codec approved_result (after planned)).0 ≡ err wrong_phase)
    × (is_ok (apply_message example_codec contract_ready (after configured)).0 ≡ true)
    × ((after configured).next_action ≡ NextAction.request_primary_contract)
    × ((apply_message example_codec contract_ready (after configured)).1.next_action
        ≡ NextAction.request_reviewer_contract)
    × (revalidate_message example_codec approved_result ≡ ok approved_result)
    × (is_ok (apply_message example_codec approved_result (after reviewed)).0 ≡ true)
    × (revalidate_message example_codec (approved_plan 1) ≡ ok (approved_plan 1))
    × (is_ok (apply_message example_codec (approved_plan 1) (after planned)).0 ≡ true)
    × (is_ok (apply_changes_required example_codec (plan_changes 1) (after planned)).0 ≡ true)
    × (parse_test_evidence example_codec (verified 0).payload ≡ ok evidence)
    × (is_ok (record_verification example_codec (verified 0) (after prepared)).0 ≡ true)
    × (all_allowed stopped ≡ true)
    × ((after approved).status ≡ RunStatus.running)
    × ((after approved).next_action ≡ NextAction.revalidate_and_accept)
    × (is_ok (apply_message example_codec (verified 0) (after prepared)).0 ≡ true)
    × ((after prepared).next_action ≡ NextAction.request_primary_verification)
    × ((apply_message example_codec (verified 0) (after prepared)).1.next_action
        ≡ NextAction.request_reviewer_result_verdict)
    × (all_allowed accepted_history ≡ true)
    × (all_allowed approved ≡ true)
    × (all_allowed prepared ≡ true)
unfolding after as_object is_object as_array as_str as_u64 get is_blank validate_message
    is_blank_entry validate_invariants accepted_result_of is_allowed perform
    prepare_verification_workspace is_destination new require_running require_phase require_round
    require_plan_revision verify_immutable_envelope verify_blocked_envelope expected_role
    apply_contract apply_plan apply_plan_approval string_array_field parse_test_evidence
    freeze_commands runs_of is_incomplete validate_complete_test_evidence failed
    validate_test_evidence revalidate_message apply_message apply_integration apply_result_approval
    apply_changes_required configure_integration accept_after_revalidation canonical_json_hash any
    count_of contains eqb ℕ_discrete RunStatus-discrete Phase-discrete NextAction-discrete
    String-discrete MessagePhase-discrete Option-discrete ℤ-discrete List-discrete
    Component-discrete
trace = (
  refl, refl, refl, refl, refl, refl, refl, refl, refl, refl, refl, refl, refl, refl, refl, refl,
  refl, refl, refl, refl, refl,
)
