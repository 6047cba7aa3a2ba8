-- ===== src/Examples/Policies.antt =====
-- The theorems on the command policy at the example's run.
use worktree_merge_consensus.Prelude.{
  true, ◌≡◌, ◌↔◌, refl, any, contains, eqb, String-discrete, List-discrete, Option-discrete,
  count_of,
}
use native.Mathlib.Decide.{ℕ_discrete}
use worktree_merge_consensus.State.Defs.{
  new, RunStatus-discrete, Phase-discrete, NextAction-discrete, ℤ-discrete, Component-discrete,
}
use worktree_merge_consensus.State.Workspace.{prepare_verification_workspace, is_destination}
use worktree_merge_consensus.State.Operations.{is_allowed, perform}
use worktree_merge_consensus.State.Persisted.{accepted_result_of}
use worktree_merge_consensus.Text.{trim, is_blank, is_empty, starts_with, ends_with, append}
use worktree_merge_consensus.Json.{get, as_str, as_object, is_object, as_array, as_u64}
use worktree_merge_consensus.Policy.{ApprovalDecision}
use worktree_merge_consensus.Policy.Words.{
  has_control, normalize_app_server_command, is_control, is_separator, executable_name, is_launcher,
  is_inline_flag, launches, names_git, contains_shell_control, validate_test_command,
}
use worktree_merge_consensus.Policy.Git.{
  is_allowed_git_command, is_unsafe_argument, safe_read_only_git_arguments, safe_branch_arguments,
  safe_show_ref_arguments, is_allowed_read_only_git_invocation, corrective_integration,
  is_target_switch, safe_commit_message, is_safe_commit, is_allowed_git_write,
  is_allowed_read_only_git_command,
}
use worktree_merge_consensus.Policy.Replay.{
  is_retry_safe_read_only_integration_command, is_allowed_instruction_discovery,
  is_retry_safe_read_only_command_at,
}
use worktree_merge_consensus.Policy.Approval.{
  expected_cwd, asks_more, decide_command_approval, is_given, lacks_accept, is_in_allowlist,
  is_required_test, check_command, command_approval_denial,
}
use worktree_merge_consensus.Policy.Decided.{
  IsListed, IsPermitted, is_allowed_git_command-IsListed, decide_command_approval-BelongsTo,
}
use worktree_merge_consensus.Policy.Reached.{IsUnderPlan, decide_command_approval-Reach}
use worktree_merge_consensus.Policy.Retried.{IsReplayable, retry_safe-IsHarmless}
use worktree_merge_consensus.Examples.Wire.{example_codec}
use worktree_merge_consensus.Examples.Run.{after, prepared, reached, all_allowed}
use worktree_merge_consensus.Examples.Shells.{example_shell, integrating, asking, testing}
use worktree_merge_consensus.Protocol.{MessagePhase-discrete}
use worktree_merge_consensus.Json.Canonical.{canonical_json_hash}
use worktree_merge_consensus.State.Control.{configure_integration, accept_after_revalidation}
use worktree_merge_consensus.State.Planning.{
  expected_role, apply_contract, apply_plan, apply_plan_approval,
}
use worktree_merge_consensus.State.Requirements.{
  require_running, require_phase, require_round, require_plan_revision, verify_immutable_envelope,
  verify_blocked_envelope,
}
use worktree_merge_consensus.Protocol.Invariants.{is_blank_entry, validate_invariants}
use worktree_merge_consensus.Protocol.Reading.{validate_message}
use worktree_merge_consensus.State.Evidence.{
  parse_test_evidence, string_array_field, freeze_commands, runs_of, is_incomplete,
  validate_complete_test_evidence, failed, validate_test_evidence,
}
use worktree_merge_consensus.State.Integration.{apply_integration, apply_result_approval}
use worktree_merge_consensus.State.Review.{apply_changes_required}
use worktree_merge_consensus.State.Messages.{revalidate_message, apply_message}
use worktree_merge_consensus.Text.Parts.{includes, any_char, all_chars}

is_allowed_git_command-IsListed_example :
    (is_allowed_git_command example_shell (after integrating) "git add -A" ≡ true)
    ↔ IsListed example_shell (after integrating) "git add -A"
is_allowed_git_command-IsListed_example =
    is_allowed_git_command-IsListed example_shell (after integrating) "git add -A"

facts_of_run :
    (decide_command_approval example_shell (after integrating) (asking "git add -A")
      ≡ ApprovalDecision.accept)
    × (is_retry_safe_read_only_integration_command example_shell
          (after integrating)
          "/primary"
          "git status"
        ≡ true)
    × (all_allowed integrating ≡ true)
    × (decide_command_approval example_shell (after prepared) testing ≡ ApprovalDecision.accept)
    × (all_allowed prepared ≡ true)
unfolding after as_object is_object as_array as_str as_u64 get is_blank validate_message
    is_blank_entry validate_invariants accepted_result_of is_allowed perform
    prepare_verification_workspace is_destination new require_running require_phase require_round
    require_plan_revision verify_immutable_envelope verify_blocked_envelope expected_role
    apply_contract apply_plan apply_plan_approval string_array_field parse_test_evidence
    freeze_commands runs_of is_incomplete validate_complete_test_evidence failed
    validate_test_evidence revalidate_message apply_message apply_integration apply_result_approval
    apply_changes_required configure_integration accept_after_revalidation canonical_json_hash any
    count_of contains eqb ℕ_discrete RunStatus-discrete Phase-discrete NextAction-discrete
    String-discrete MessagePhase-discrete Option-discrete ℤ-discrete trim is_empty starts_with
    ends_with append includes any_char all_chars is_control is_separator executable_name is_launcher
    is_inline_flag launches names_git has_control contains_shell_control validate_test_command
    normalize_app_server_command is_unsafe_argument safe_read_only_git_arguments
    safe_branch_arguments safe_show_ref_arguments is_allowed_read_only_git_invocation
    corrective_integration is_target_switch safe_commit_message is_safe_commit is_allowed_git_write
    is_allowed_git_command is_allowed_read_only_git_command is_allowed_instruction_discovery
    is_retry_safe_read_only_command_at is_retry_safe_read_only_integration_command expected_cwd
    is_given lacks_accept asks_more is_in_allowlist is_required_test check_command
    command_approval_denial decide_command_approval List-discrete Component-discrete
facts_of_run = (refl, refl, refl, refl, refl)

decide_command_approval-BelongsTo_example :
    IsPermitted example_shell (after integrating) (asking "git add -A")
decide_command_approval-BelongsTo_example =
    decide_command_approval-BelongsTo example_shell (after integrating) (asking "git add -A")
      facts_of_run.0

decide_command_approval-Reach_example : IsUnderPlan example_shell (after prepared) testing
decide_command_approval-Reach_example =
    decide_command_approval-Reach example_shell example_codec (reached prepared facts_of_run.4)
      testing facts_of_run.3

retry_safe-IsHarmless_example :
    IsReplayable example_shell (after integrating) "/primary" "git status"
retry_safe-IsHarmless_example =
    retry_safe-IsHarmless example_shell (after integrating) "/primary" "git status" facts_of_run.1

pub integrating_reached : all_allowed integrating ≡ true
integrating_reached = facts_of_run.2
