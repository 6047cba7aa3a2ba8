-- ===== src/State/Planning.antt =====
-- crates/core/src/state.rs: the contracts, the plan and its approval.
use worktree_merge_consensus.Prelude.{
  true, String, Option, none, some, List, [], is_some, ◌==◌, nat_eq, string_eq, option_eq,
}
use worktree_merge_consensus.Prelude.Results.{ok, err, guard, ok_or}
use worktree_merge_consensus.Json.{Value, get, as_str, is_object}
use worktree_merge_consensus.Json.Canonical.{canonical_json_hash}
use worktree_merge_consensus.Protocol.{ProtocolMessage, message_phase_eq}
use worktree_merge_consensus.State.Defs.{Phase, NextAction, RunState, Codec, phase_eq, action_eq}
use worktree_merge_consensus.State.Exec.{
  Check, Exec, lift, write, ◌>>=◌, ◌>>◌, invalid_response, unexpected_message, unexpected_role,
  plan_missing, stale_plan_hash,
}
use worktree_merge_consensus.State.Evidence.{and_then, string_array_field, freeze_test_commands}
use worktree_merge_consensus.State.Requirements.{
  require_running, require_phase, require_round, require_plan_revision,
}
use worktree_merge_consensus.State.Transitions.{become, request_integration}

-- The commands that a plan adds, if it has the field.
plan_commands : Value → Check (List String)
plan_commands payload = elim (get payload "test_commands") [
  | none ↦ ok []
  | some _ ↦ string_array_field payload "test_commands"
]

-- The pending contract's role, as the messages spell it.
unfoldable pub expected_role : NextAction → Check String
expected_role NextAction.request_primary_contract = ok "PRIMARY"
expected_role NextAction.request_reviewer_contract = ok "REVIEWER"
expected_role _ = err unexpected_message

check_role_value : Option String → String → Check (Unit {0})
check_role_value none expected = err invalid_response
check_role_value (some role) expected = guard unexpected_role (role == expected)

check_role : Value → String → Check (Unit {0})
unfolding check_role_value
check_role payload expected = elim (get payload "role") [
  | none ↦ ok tt
  | some role ↦ check_role_value (as_str role) expected
]

module _ (c : Codec) where
  primary_contract_state : Value → List String → RunState → RunState
  primary_contract_state contract tests s = freeze_test_commands tests (record s {
    primary_contract_hash = some (canonical_json_hash c.digest contract);
    primary_contract = some contract;
    next_action = NextAction.request_reviewer_contract;
  })

  reviewer_contract_state : Value → List String → RunState → RunState
  reviewer_contract_state contract tests s = freeze_test_commands tests (record s {
    reviewer_contract_hash = some (canonical_json_hash c.digest contract);
    reviewer_contract = some contract;
    phase = Phase.plan_review;
    round = 1;
    plan_revision = some 1;
    next_action = NextAction.request_primary_plan;
  })

  -- The last clause stands for `unreachable!`: `expected_role` has refused those actions.
  record_contract : NextAction → Value → List String → Exec NextAction
  unfolding primary_contract_state reviewer_contract_state freeze_test_commands
  record_contract NextAction.request_primary_contract contract tests s =
      become (primary_contract_state contract tests s) s
  record_contract NextAction.request_reviewer_contract contract tests s =
      become (reviewer_contract_state contract tests s) s
  record_contract _ contract tests s = (err unexpected_message, s)

  unfoldable pub apply_contract : ProtocolMessage → Exec NextAction
  unfolding check_role record_contract
  apply_contract m s =
      (do
        lift (require_phase s Phase.contract)
        lift (require_round m 1)
        expected ← lift (expected_role s.next_action)
        lift (check_role m.payload expected)
        contract ← lift (ok_or (get m.payload "contract") invalid_response)
        tests ← lift (string_array_field contract "tests")
        record_contract s.next_action contract tests)
        s

  plan_state : Value → List String → RunState → RunState
  plan_state payload commands s = record (freeze_test_commands commands s) {
    current_plan_hash = some (canonical_json_hash c.digest payload);
    current_plan_payload = some payload;
    next_action = NextAction.request_reviewer_plan_verdict;
  }

  unfoldable pub record_plan : Value → Exec NextAction
  unfolding plan_commands plan_state freeze_test_commands
  record_plan payload s =
      (do
        lift (require_running s)
        lift (require_phase s Phase.plan_review)
        lift (guard invalid_response (is_object payload))
        commands ← lift (plan_commands payload)
        become (plan_state payload commands s))
        s

  unfoldable pub apply_plan : ProtocolMessage → Exec NextAction
  unfolding record_plan
  apply_plan m s =
      (do
        lift (require_phase s Phase.plan_review)
        lift (require_round m s.round)
        lift (require_plan_revision s m)
        lift (guard unexpected_message (s.next_action == NextAction.request_primary_plan))
        record_plan m.payload)
        s

-- The state that an approval writes before it asks for the integration.
unfoldable pub approved_state : ProtocolMessage → RunState → RunState
approved_state m s = record s { plan_approved = true; plan_approval_payload = some m.payload }

unfoldable pub apply_plan_approval : ProtocolMessage → Exec NextAction
unfolding approved_state request_integration
apply_plan_approval m s =
    (do
      lift (require_phase s Phase.plan_review)
      lift (require_round m s.round)
      lift (require_plan_revision s m)
      lift (guard plan_missing (is_some s.current_plan_hash))
      hash ← lift (ok_or (and_then (get m.payload "approved_plan_hash") as_str) invalid_response)
      lift (guard stale_plan_hash (s.current_plan_hash == some hash))
      write (approved_state m s)
      request_integration)
      s
