-- ===== src/State/Control.antt =====
-- crates/core/src/state.rs: the operations that the coordinator calls beside the messages.
use worktree_merge_consensus.Prelude.{
  not, ◌||◌, String, none, some, List, [], ◌∷◌, ◌++◌, any, is_some, contains, if◌then◌else◌, ◌==◌,
  ◌!=◌, string_eq, option_eq,
}
use worktree_merge_consensus.Prelude.Results.{guard}
use worktree_merge_consensus.Text.{is_blank, trim}
use worktree_merge_consensus.State.Defs.{
  Phase, NextAction, RunStatus, RunState, RunDiagnostic, AcceptedResult, phase_eq, action_eq,
  status_eq,
}
use worktree_merge_consensus.State.Exec.{
  Exec, lift, write, ◌>>=◌, ◌>>◌, run_not_active, policy_already_frozen, invalid_branch_name,
  invalid_test_command, not_waiting_thread, not_paused, result_not_approved, invalid_state,
}
use worktree_merge_consensus.State.Evidence.{validate_test_evidence}
use worktree_merge_consensus.State.Persisted.{accepted_result_of}
use worktree_merge_consensus.State.Requirements.{require_running}
use worktree_merge_consensus.State.Transitions.{become}

-- The commands trimmed, each once, in the order in which they come first.
unfoldable pub normalize_tests : List String → List String → List String
normalize_tests normalized [] = normalized
normalize_tests normalized (command ∷ commands) =
    normalize_tests
      (if contains normalized (trim command) then normalized else normalized ++ (trim command ∷ []))
      commands

unfoldable pub configure_integration : String → List String → Exec (Unit {0})
unfolding normalize_tests
configure_integration target commands s =
    (do
      lift (require_running s)
      lift (
          guard policy_already_frozen (
            not (
              s.phase != Phase.contract
              || s.next_action != NextAction.request_primary_contract
              || is_some s.target_integration_branch)))
      lift (guard invalid_branch_name (not (is_blank target)))
      lift (guard invalid_test_command (not (any is_blank commands)))
      write (record s {
        target_integration_branch = some target;
        required_test_commands = normalize_tests [] commands;
      }))
      s

unfoldable pub pause : String → Exec (Unit {0})
pause reason s =
    (do
      lift (
          guard run_not_active
            (s.status == RunStatus.running || s.status == RunStatus.waiting_thread))
      write (record s { status = RunStatus.paused_user_action; reason_code = some reason }))
      s

unfoldable pub record_error : RunDiagnostic → RunState → RunState
record_error diagnostic s = record s { last_error = some diagnostic }

unfoldable pub wait_for_thread : Exec (Unit {0})
wait_for_thread s =
    (do lift (require_running s); write (record s { status = RunStatus.waiting_thread })) s

unfoldable pub thread_became_idle : Exec (Unit {0})
thread_became_idle s =
    (do
      lift (guard not_waiting_thread (s.status == RunStatus.waiting_thread))
      write (record s { status = RunStatus.running }))
      s

unfoldable pub resume : Exec NextAction
resume s =
    (do
      lift (guard not_paused (s.status == RunStatus.paused_user_action))
      become (record s { status = RunStatus.running; reason_code = none; last_error = none }))
      s

unfoldable pub cancel : RunState → RunState
cancel s = record s {
  status = RunStatus.cancelled;
  phase = Phase.cancelled;
  reason_code = none;
  next_action = NextAction.stop;
}

unfoldable pub mark_incompatible : String → RunState → RunState
mark_incompatible reason s = record s {
  status = RunStatus.incompatible_codex;
  phase = Phase.blocked;
  reason_code = some reason;
  next_action = NextAction.stop;
}

unfoldable pub accepted_state : AcceptedResult → RunState → RunState
accepted_state result s = record s {
  status = RunStatus.accepted;
  phase = Phase.accepted;
  reason_code = none;
  next_action = NextAction.stop;
  accepted_result = some result;
}

unfoldable pub accept_after_revalidation : Exec NextAction
unfolding accepted_state
accept_after_revalidation s =
    (do
      lift (require_running s)
      lift (
          guard result_not_approved (
            not (
              s.next_action != NextAction.revalidate_and_accept
              || s.result_approved_sha != s.integration_sha)))
      lift (validate_test_evidence s)
      result ← lift (accepted_result_of s invalid_state)
      become (accepted_state result s))
      s
