-- ===== src/Policy/Approval.antt =====
-- crates/daemon/src/policy.rs: the answer to a task that asks to run a command.
use worktree_merge_consensus.Prelude.{
  Bool, true, false, not, ◌&&◌, ◌||◌, String, Option, none, some, any, ◌==◌, string_eq, option_eq,
}
use worktree_merge_consensus.Prelude.Results.{Result, ok, err, ◌>>=◌, ◌>>◌, guard, ok_or}
use worktree_merge_consensus.Text.{trim, is_empty}
use worktree_merge_consensus.Json.{Value, null, get, as_str, as_array}
use worktree_merge_consensus.State.Defs.{PathBuf, NextAction, RunState}
use worktree_merge_consensus.Policy.Defs.{ApprovalDecision, Denial, Shell}
use worktree_merge_consensus.Policy.Words.{
  contains_shell_control, normalize_app_server_command, validate_test_command,
}
use worktree_merge_consensus.Policy.Git.{is_allowed_git_command}
use worktree_merge_consensus.Policy.Replay.{is_allowed_instruction_discovery}

abbrev pub and_then : {A B : Type 0} → Option A → (A → Option B) → Option B
and_then none f = none
and_then (some a) f = f a

-- The worktree that the pending action runs in.
unfoldable pub expected_cwd : RunState → Option PathBuf
expected_cwd s = elim s.next_action [
  | NextAction.request_primary_integration ↦ some s.facts.primary_worktree
  | NextAction.request_primary_verification ↦ s.verification_worktree
  | _ ↦ none
]

-- `is_some_and(|value| !value.is_null() && p(value))`
unfoldable pub is_given : (Value → Bool) → Option Value → Bool
is_given p none = false
is_given p (some null) = false
is_given p (some v) = p v

unfoldable pub lacks_accept : Value → Bool
lacks_accept v = elim (as_array v) [
  | none ↦ true
  | some decisions ↦ not (any (λ d. as_str d == some "accept") decisions)
]

-- The fields that ask for more than one run of the command in its worktree.
unfoldable pub asks_more : Value → Bool
unfolding is_given
asks_more params =
    is_given (λ _. true) (get params "additionalPermissions")
    || is_given (λ _. true) (get params "networkApprovalContext")
    || is_given (λ _. true) (get params "proposedNetworkPolicyAmendments")

module _ (sh : Shell) where
  unfoldable pub is_required_test : RunState → String → Bool
  unfolding validate_test_command
  is_required_test s command =
      any (λ required. trim required == command && validate_test_command sh required)
        s.required_test_commands

  unfoldable pub is_in_allowlist : RunState → String → Bool
  is_in_allowlist s command = elim s.next_action [
    | NextAction.request_primary_integration ↦
        is_allowed_git_command sh s command || is_allowed_instruction_discovery sh command
    | NextAction.request_primary_verification ↦ is_required_test s command
    | _ ↦ false
  ]

  -- The checks in their order; the first that fails denies the command.
  unfoldable pub check_command : RunState → Value → Result Denial (Unit {0})
  check_command s params = do
    guard Denial.wrong_cwd
        (and_then (get params "cwd") as_str == and_then (expected_cwd s) (sh.to_str))
    guard Denial.subcommand_callback (not (is_given (λ _. true) (get params "approvalId")))
    guard Denial.remote_environment
        (not (is_given (λ v. not (as_str v == some "local")) (get params "environmentId")))
    guard Denial.additional_permissions (not (asks_more params))
    guard Denial.accept_unavailable (not (is_given lacks_accept (get params "availableDecisions")))
    script ←
        ok_or (and_then (and_then (get params "command") as_str) (normalize_app_server_command sh))
          Denial.unsupported_command
    guard Denial.empty_command (not (is_empty (trim script)))
    guard Denial.shell_control (not (contains_shell_control sh (trim script)))
    guard Denial.outside_allowlist (is_in_allowlist s (trim script))

  unfoldable pub command_approval_denial : RunState → Value → Option Denial
  unfolding check_command
  command_approval_denial s params = elim (check_command s params) [
    | ok _ ↦ none
    | err denial ↦ some denial
  ]

  unfoldable pub decide_command_approval : RunState → Value → ApprovalDecision
  unfolding command_approval_denial
  decide_command_approval s params = elim (command_approval_denial s params) [
    | none ↦ ApprovalDecision.accept
    | some denial ↦ ApprovalDecision.cancel
  ]
