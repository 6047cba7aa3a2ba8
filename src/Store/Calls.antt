-- ===== src/Store/Calls.antt =====
-- crates/daemon/src/store.rs: the operations that write, as one function, and sequences of them. Of those
-- that make a blocked run active again, `reactivating` has the writes, whatever their checks admit.
use worktree_merge_consensus.Prelude.{ℕ, String, Option, List, [], ◌∷◌}
use worktree_merge_consensus.Prelude.Results.{Result, ok, err}
use worktree_merge_consensus.Json.{Value}
use worktree_merge_consensus.State.Defs.{ℤ, PathBuf, RunState}
use worktree_merge_consensus.Store.Defs.{
  Storage, StoreError, PrimaryBindingMode, PatchRow, Database,
}
use worktree_merge_consensus.Store.Runs.{insert_run, save_state, release_lock}
use worktree_merge_consensus.Store.Turns.{
  record_pending_send_with_binding, record_turn_start_intent, record_turn_started,
  record_recovered_turn_started, accept_response_and_advance,
}
use worktree_merge_consensus.Store.Verification.{
  begin_verification_command, complete_verification_command,
}
use worktree_merge_consensus.Store.Archive.{
  reset_terminal_turn_for_retry, reset_completed_read_only_turn_for_retry,
  reset_completed_integration_tool_failure_turn_for_retry,
  reset_eventless_successful_patch_turn_for_retry,
}
use worktree_merge_consensus.Store.Bindings.{activate_primary_binding}
use worktree_merge_consensus.Store.Bindings.Rotation.{
  rotate_ephemeral_primary_binding_for_unsent_pending,
  activate_initial_direct_binding_for_pending_send, bind_unsent_primary_pending_to_active_binding,
}
use worktree_merge_consensus.Store.Reactivation.{
  Reactivation, reactivate, restore_archived_completed_turn_after_ephemeral_loss,
}
use worktree_merge_consensus.Store.Patches.{record_successful_patch_with_provenance}
use worktree_merge_consensus.Store.TurnEvents.{record_turn_item_event, record_turn_completed_event}

-- The operations with their arguments; the first number of some is the time.
pub data Call : Type 0 where
  inserting saving : ℕ → RunState → Call
  accepting : ℕ → ℕ → String → RunState → Call
  releasing : ℕ → Call
  requesting : ℕ → String → String → ℕ → String → Option ℕ → Call
  intending : ℕ → ℕ → String → Call
  starting recovering : ℕ → String → String → String → Call
  beginning : ℕ → String → String → ℕ → String → PathBuf → Call
  completing : ℕ → String → ℕ → ℤ → String → String → Call
  resetting_terminal resetting_read_only resetting_tool_failure :
      ℕ → String → String → String → String → Call
  resetting_eventless : ℕ → String → String → String → Call
  activating : ℕ → ℕ → String → String → PrimaryBindingMode → String → Option String → Call
  rotating : ℕ → ℕ → ℕ → String → String → String → String → Call
  activating_initial : ℕ → ℕ → String → String → Call
  binding_unsent : ℕ → Call
  patching : PatchRow → Call
  recording_item : ℕ → String → String → String → Value → Call
  recording_completion : ℕ → String → String → Value → Call
  reactivating : ℕ → Reactivation → Result StoreError (Unit {0}) → Call
  restoring : ℕ → String → String → String → String → String → Call

abbrev pub forget : {A D : Type 0} → Result StoreError A × D → Result StoreError (Unit {0}) × D
forget (ok a, d) = (ok tt, d)
forget (err e, d) = (err e, d)

module _ (st : Storage) where
  unfoldable pub call : Call → Database st.Text → Result StoreError (Unit {0}) × Database st.Text
  call (inserting now s) db = insert_run st now s db
  call (saving now s) db = save_state st now s db
  call (accepting now run_id hash s) db = accept_response_and_advance st now run_id hash s db
  call (releasing run_id) db = (ok tt, release_lock run_id db)
  call (requesting run_id role phase round hash generation) db =
      record_pending_send_with_binding run_id role phase round hash generation db
  call (intending now run_id hash) db = record_turn_start_intent now run_id hash db
  call (starting run_id hash thread_id turn_id) db =
      record_turn_started run_id hash thread_id turn_id db
  call (recovering run_id hash thread_id turn_id) db =
      record_recovered_turn_started run_id hash thread_id turn_id db
  call (beginning run_id hash turn_id index command path) db =
      forget (begin_verification_command st run_id hash turn_id index command path db)
  call (completing run_id hash index exit_code stdout stderr) db =
      forget (complete_verification_command st run_id hash index exit_code stdout stderr db)
  call (resetting_terminal run_id hash thread_id turn_id status) db =
      reset_terminal_turn_for_retry run_id hash thread_id turn_id status db
  call (resetting_read_only run_id hash thread_id turn_id status) db =
      reset_completed_read_only_turn_for_retry run_id hash thread_id turn_id status db
  call (resetting_tool_failure run_id hash thread_id turn_id status) db =
      reset_completed_integration_tool_failure_turn_for_retry run_id hash thread_id turn_id status
        db
  call (resetting_eventless run_id hash thread_id turn_id) db =
      reset_eventless_successful_patch_turn_for_retry run_id hash thread_id turn_id db
  call (activating now run_id source effective mode server history) db =
      forget (activate_primary_binding now run_id source effective mode server history db)
  call (rotating now run_id generation source effective server history) db = forget (
      rotate_ephemeral_primary_binding_for_unsent_pending now run_id generation source effective
        server history db)
  call (activating_initial now run_id source server) db =
      forget (activate_initial_direct_binding_for_pending_send now run_id source server db)
  call (binding_unsent run_id) db = bind_unsent_primary_pending_to_active_binding run_id db
  call (patching patch) db = forget (record_successful_patch_with_provenance patch db)
  call (recording_item run_id thread_id turn_id method item) db =
      record_turn_item_event run_id thread_id turn_id method item db
  call (recording_completion run_id thread_id turn_id turn) db =
      record_turn_completed_event run_id thread_id turn_id turn db
  call (reactivating now r admitted) db = reactivate st now r admitted db
  call (restoring run_id hash thread_id turn_id to_thread to_turn) db =
      restore_archived_completed_turn_after_ephemeral_loss run_id hash thread_id turn_id to_thread
        to_turn db

  -- The calls one after the other, whether they succeed or fail.
  unfoldable pub run_calls : List Call → Database st.Text → Database st.Text
  unfolding call
  run_calls [] db = db
  run_calls (c ∷ cs) db = run_calls cs (call c db).1
