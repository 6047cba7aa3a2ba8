-- ===== src/Examples/Stored.antt =====
-- The theorems on the store at the example's run.
use worktree_merge_consensus.Protocol.{MessagePhase-discrete}
use native.Mathlib.Decide.{ℕ_discrete}
use worktree_merge_consensus.Json.Canonical.{canonical_json_hash}
use worktree_merge_consensus.State.Control.{configure_integration, accept_after_revalidation}
use worktree_merge_consensus.State.Planning.{
  expected_role, apply_contract, apply_plan, apply_plan_approval,
}
use worktree_merge_consensus.State.Requirements.{
  require_running, require_phase, require_round, require_plan_revision, verify_immutable_envelope,
  verify_blocked_envelope,
}
use worktree_merge_consensus.State.Workspace.{prepare_verification_workspace, is_destination}
use worktree_merge_consensus.State.Operations.{is_allowed, perform}
use worktree_merge_consensus.State.Persisted.{
  needs_integration, needs_success, accepted_result_of, validate_persisted,
}
use worktree_merge_consensus.Protocol.Invariants.{is_blank_entry, validate_invariants}
use worktree_merge_consensus.Protocol.Reading.{validate_message}
use worktree_merge_consensus.Text.{is_blank}
use worktree_merge_consensus.Json.{as_object, is_object, as_array, as_str, as_u64, get}
use worktree_merge_consensus.Prelude.{
  any, count_of, contains, eqb, String-discrete, Option-discrete, ◌≡◌, refl, ℕ, none, some, List,
  [], ◌∷◌, arith,
}
use worktree_merge_consensus.State.Defs.{
  new, RunStatus-discrete, Phase-discrete, NextAction-discrete, ℤ-discrete, RunState, PathBuf,
}
use worktree_merge_consensus.State.Evidence.{
  parse_test_evidence, string_array_field, freeze_commands, runs_of, is_incomplete,
  validate_complete_test_evidence, failed, validate_test_evidence,
}
use worktree_merge_consensus.State.Integration.{apply_integration, apply_result_approval}
use worktree_merge_consensus.State.Review.{apply_changes_required}
use worktree_merge_consensus.State.Messages.{revalidate_message, apply_message}
use worktree_merge_consensus.Examples.Run.{after, configured}
use worktree_merge_consensus.Store.Codec.{serialize_state, deserialize_state, is_terminal}
use worktree_merge_consensus.Store.Runs.{
  insert_run_event, release_lock, is_locked, release_if_terminal, row_of, lock_of, has_facts,
  inserted, insert_run, find_run, load_run, updated_runs, updated, update_run_row, save_state,
}
use worktree_merge_consensus.Store.Turns.{
  is_open, is_open_of, has_hash, same_request, pending_turn, record_pending_send_with_binding,
  accept_turn, insert_transition, accept_response_and_advance,
}
use worktree_merge_consensus.Store.Verification.{
  read_row, read_rows, is_command, is_claimed_by, is_item, claim_of, verification_command_item_id,
  started_row, is_same_claim, insert_claim, begin_txn, begin_verification_command,
  VerificationCommandClaim,
}
use worktree_merge_consensus.Store.{
  has_run, Database, empty_database, Delivery-discrete, ExecutionRow,
}
use worktree_merge_consensus.Prelude.Tables.{find, select, delete, update}
use worktree_merge_consensus.Text.Decimal.{decimal}
use worktree_merge_consensus.Prelude.Results.{ok}
use worktree_merge_consensus.Store.Calls.{Call, run_calls}
use worktree_merge_consensus.Store.Calls.Call.{inserting, saving}
use worktree_merge_consensus.Store.Refinement.{replay, Represents, run_calls-Represents}
use worktree_merge_consensus.Store.Locks.{IsExclusive, run_calls-IsExclusive}
use worktree_merge_consensus.Store.Once.{begin_verification_command-once}
use worktree_merge_consensus.Store.OneActive.{HasOneActive, run_calls-HasOneActive}
use worktree_merge_consensus.Store.Turns.Accepted.{Accepts, accept_response_and_advance-Accepts}
use worktree_merge_consensus.Examples.Shells.{example_storage, integrating}

abbrev history : List Call
history = inserting 0 (after configured) ∷ saving 1 (after integrating) ∷ []

-- The run after its configuration is stored, and then a request of it.
abbrev stored : Database RunState
stored = (insert_run example_storage 0 (after configured) empty_database).1

abbrev requested : Database RunState
requested = (record_pending_send_with_binding 7 "PRIMARY" "CONTRACT" 1 "hash" none stored).1

abbrev tests_at : PathBuf
tests_at = []

abbrev claimed : ExecutionRow
claimed = started_row example_storage 7 "hash" "turn" 0 "cargo test" ""

outcomes :
    (load_run example_storage (after integrating).facts.run_id stored
      ≡ ok (some (after configured)))
    × ((accept_response_and_advance example_storage 2 7 "answer" (after integrating) requested).0
        ≡ ok tt)
    × ((begin_verification_command example_storage 7 "hash" "turn" 0 "cargo test" tests_at stored).0
        ≡ ok (VerificationCommandClaim.execute claimed))
    × (serialize_state example_storage (after integrating) ≡ ok (after integrating))
unfolding after as_object is_object as_array as_str as_u64 get is_blank validate_message
    is_blank_entry validate_invariants accepted_result_of is_allowed perform
    prepare_verification_workspace is_destination new require_running require_phase require_round
    require_plan_revision verify_immutable_envelope verify_blocked_envelope expected_role
    apply_contract apply_plan apply_plan_approval string_array_field parse_test_evidence
    freeze_commands runs_of is_incomplete validate_complete_test_evidence failed
    validate_test_evidence revalidate_message apply_message apply_integration apply_result_approval
    apply_changes_required configure_integration accept_after_revalidation canonical_json_hash any
    count_of contains eqb ℕ_discrete RunStatus-discrete Phase-discrete NextAction-discrete
    String-discrete MessagePhase-discrete Option-discrete ℤ-discrete serialize_state
    deserialize_state is_terminal insert_run_event release_lock is_locked release_if_terminal row_of
    lock_of has_facts inserted insert_run find_run load_run updated_runs updated update_run_row
    save_state is_open is_open_of has_hash same_request pending_turn
    record_pending_send_with_binding accept_turn insert_transition accept_response_and_advance
    read_row read_rows is_command is_claimed_by is_item claim_of verification_command_item_id
    started_row is_same_claim insert_claim begin_txn begin_verification_command has_run find select
    delete update decimal validate_persisted Delivery-discrete needs_integration needs_success
outcomes = (refl, refl, refl, refl)

represents_nothing : (k : ℕ) → load_run example_storage k empty_database ≡ ok none
unfolding load_run find_run find
represents_nothing k = refl

run_calls-Represents_example :
    Represents example_storage
      (run_calls example_storage history empty_database)
      (replay example_storage history empty_database (λ _. ok none))
run_calls-Represents_example =
    run_calls-Represents example_storage history empty_database (λ _. ok none) represents_nothing

accept_response_and_advance-Accepts_example :
    Accepts example_storage 7 "answer"
      (after integrating)
      requested
      (accept_response_and_advance example_storage 2 7 "answer" (after integrating) requested).1
accept_response_and_advance-Accepts_example =
    accept_response_and_advance-Accepts example_storage 2 7 "answer" (after integrating) requested
      outcomes.1

begin_verification_command-once_example : ¬ (
    (begin_verification_command example_storage 7 "hash" "later" 0 "cargo test" tests_at (
      run_calls example_storage history
        (begin_verification_command example_storage 7 "hash" "turn" 0 "cargo test" tests_at
          stored).1)).0
    ≡ ok (VerificationCommandClaim.execute claimed))
begin_verification_command-once_example =
    begin_verification_command-once example_storage 7 "hash" 0 "turn" "cargo test" tests_at claimed
      stored outcomes.2 history "later" "cargo test" tests_at claimed

run_calls-IsExclusive_example : IsExclusive (run_calls example_storage history empty_database).locks
run_calls-IsExclusive_example = run_calls-IsExclusive example_storage history empty_database tt

no_binding : HasOneActive []
unfolding count_of
no_binding k = omega arith

run_calls-HasOneActive_example :
    HasOneActive (run_calls example_storage history empty_database).bindings
run_calls-HasOneActive_example =
    run_calls-HasOneActive example_storage history empty_database no_binding
