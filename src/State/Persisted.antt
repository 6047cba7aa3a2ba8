-- ===== src/State/Persisted.antt =====
-- crates/core/src/state.rs: `validate_persisted`, what a state must meet to be stored or loaded.
use worktree_merge_consensus.Prelude.{
  Bool, true, false, not, ◌&&◌, ◌||◌, some, is_nil, is_none, is_some, ◌==◌, ◌!=◌, nat_eq, string_eq,
  option_eq,
}
use worktree_merge_consensus.Prelude.Results.{ok, err, ◌>>=◌, ◌>>◌, guard, ok_or}
use worktree_merge_consensus.State.Defs.{
  Phase, NextAction, RunStatus, RunState, AcceptedResult, phase_eq, status_eq, action_eq, result_eq,
  run_state_schema_version,
}
use worktree_merge_consensus.State.Exec.{Check, Code, incompatible_state}
use worktree_merge_consensus.State.Evidence.{
  validate_complete_test_evidence, validate_test_evidence,
}

-- `map_err(|_| …)`
abbrev pub map_err : {A : Type 0} → Code → Check A → Check A
map_err code (ok a) = ok a
map_err code (err _) = err code

-- The actions that follow an integration.
unfoldable pub needs_integration : NextAction → Bool
needs_integration NextAction.request_primary_verification = true
needs_integration NextAction.request_reviewer_result_verdict = true
needs_integration NextAction.revalidate_and_accept = true
needs_integration _ = false

-- The actions that follow a successful verification.
unfoldable pub needs_success : NextAction → Bool
needs_success NextAction.request_reviewer_result_verdict = true
needs_success NextAction.revalidate_and_accept = true
needs_success _ = false

unfoldable pub lacks_integration : RunState → Bool
lacks_integration s =
    is_none s.current_integration_payload
    || is_none s.integration_branch
    || is_none s.integration_sha

-- The result that acceptance records, from the branch and the SHA integrated.
unfoldable pub accepted_result_of : RunState → Code → Check AcceptedResult
accepted_result_of s code = do
  branch ← ok_or s.integration_branch code
  sha ← ok_or s.integration_sha code
  ok (record {
    integration_branch = branch;
    integration_sha = sha;
    primary_sha = s.facts.primary_sha;
    reviewer_sha = s.facts.reviewer_sha;
    tests = s.test_evidence;
    source_refs_unchanged = true;
    publication = record {
      local_only = true;
      pushed = false;
      pull_request_created = false;
      merged_into_existing_branch = false;
    };
  })

unfoldable pub validate_accepted : RunState → Check (Unit {0})
validate_accepted s = do
  guard incompatible_state (
      not (
        s.phase != Phase.accepted
        || s.next_action != NextAction.stop
        || s.result_approved_sha != s.integration_sha))
  map_err incompatible_state (validate_test_evidence s)
  expected ← accepted_result_of s incompatible_state
  guard incompatible_state (not (s.accepted_result != some expected))

unfoldable pub validate_persisted : RunState → Check (Unit {0})
unfolding validate_accepted
validate_persisted s = do
  guard incompatible_state (not (s.schema_version != run_state_schema_version))
  guard incompatible_state (not (needs_integration s.next_action && lacks_integration s))
  elim (is_nil s.test_evidence) [
    | false ↦ map_err incompatible_state (validate_complete_test_evidence s s.test_evidence)
    | true ↦ ok tt
  ]
  elim (needs_success s.next_action) [
    | true ↦ map_err incompatible_state (validate_test_evidence s)
    | false ↦ ok tt
  ]
  elim (s.status == RunStatus.accepted) [
    | true ↦ validate_accepted s
    | false ↦ guard incompatible_state (not (is_some s.accepted_result))
  ]
