-- ===== src/Store/BindingFrames.antt =====
-- crates/daemon/src/store.rs: the operations that leave the bindings alone.
use worktree_merge_consensus.Prelude.{ℕ, String, Option, Bool, true, false, ◌≡◌, refl, arith}
use worktree_merge_consensus.Prelude.Results.{Result, ok, err}
use worktree_merge_consensus.Json.{Value}
use worktree_merge_consensus.State.Defs.{ℤ, PathBuf, RunState}
use worktree_merge_consensus.Store.Defs.{Storage, StoreError, PatchRow, Database}
use worktree_merge_consensus.Store.Turns.{
  record_pending_send_with_binding, record_turn_start_intent, record_turn_started_with_generation,
  record_turn_started, record_recovered_turn_started, accept_response_and_advance,
}
use worktree_merge_consensus.Store.Verification.{
  begin_verification_command, complete_verification_command, insert_claim,
}
use worktree_merge_consensus.Store.Archive.{
  archive_and_reset_turn, reset_terminal_turn_for_retry, reset_completed_read_only_turn_for_retry,
  reset_completed_integration_tool_failure_turn_for_retry,
  reset_eventless_successful_patch_turn_for_retry,
}
use worktree_merge_consensus.Store.Bindings.Rotation.{bind_unsent_primary_pending_to_active_binding}
use worktree_merge_consensus.Store.Reactivation.{
  Reactivation, reactivate, reactivate_txn, delete_stale, archive_attempt, with_transition,
  restore_archived_completed_turn_after_ephemeral_loss,
}
use worktree_merge_consensus.Store.Patches.{record_successful_patch_with_provenance}
use worktree_merge_consensus.Store.TurnEvents.{record_turn_item_event, record_turn_completed_event}
use worktree_merge_consensus.Store.Calls.{Call, forget, call}
use worktree_merge_consensus.Store.Calls.Call.{
  inserting, saving, accepting, releasing, requesting, intending, starting, recovering, beginning,
  completing, resetting_terminal, resetting_read_only, resetting_tool_failure, resetting_eventless,
  activating, rotating, activating_initial, binding_unsent, patching, recording_item,
  recording_completion, reactivating, restoring,
}
use worktree_merge_consensus.Store.Runs.{
  insert_run, save_state, release_lock, release_if_terminal, inserted, insert_run_event, updated,
  update_run_row,
}
use worktree_merge_consensus.Store.Turns.{accept_turn, insert_transition}

module _ {Text : Type 0} (db : Database Text) where
  requesting-bindings :
      (a : ℕ) (b c : String) (d : ℕ) (e : String) (f : Option ℕ)
      → (record_pending_send_with_binding a b c d e f db).1.bindings ≡ db.bindings
  unfolding record_pending_send_with_binding
  requesting-bindings a b c d e f = ground arith

  intending-bindings :
      (a b : ℕ) (c : String) → (record_turn_start_intent a b c db).1.bindings ≡ db.bindings
  unfolding record_turn_start_intent
  intending-bindings a b c = ground arith

  terminal-bindings :
      (a : ℕ) (b c d e : String)
      → (reset_terminal_turn_for_retry a b c d e db).1.bindings ≡ db.bindings
  unfolding reset_terminal_turn_for_retry archive_and_reset_turn
  terminal-bindings a b c d e = ground arith

  read_only-bindings :
      (a : ℕ) (b c d e : String)
      → (reset_completed_read_only_turn_for_retry a b c d e db).1.bindings ≡ db.bindings
  unfolding reset_completed_read_only_turn_for_retry archive_and_reset_turn
  read_only-bindings a b c d e = ground arith

  tool_failure-bindings :
      (a : ℕ) (b c d e : String)
      → (reset_completed_integration_tool_failure_turn_for_retry a b c d e db).1.bindings
        ≡ db.bindings
  unfolding reset_completed_integration_tool_failure_turn_for_retry archive_and_reset_turn
  tool_failure-bindings a b c d e = ground arith

  eventless-bindings :
      (a : ℕ) (b c d : String)
      → (reset_eventless_successful_patch_turn_for_retry a b c d db).1.bindings ≡ db.bindings
  unfolding reset_eventless_successful_patch_turn_for_retry archive_and_reset_turn
  eventless-bindings a b c d = ground arith

  unsent-bindings :
      (a : ℕ) → (bind_unsent_primary_pending_to_active_binding a db).1.bindings ≡ db.bindings
  unfolding bind_unsent_primary_pending_to_active_binding
  unsent-bindings a = ground arith

  patching-bindings :
      (a : PatchRow) → (record_successful_patch_with_provenance a db).1.bindings ≡ db.bindings
  unfolding record_successful_patch_with_provenance
  patching-bindings a = ground arith

  item-bindings :
      (a : ℕ) (b c d : String) (e : Value)
      → (record_turn_item_event a b c d e db).1.bindings ≡ db.bindings
  unfolding record_turn_item_event
  item-bindings a b c d e = ground arith

  completion-bindings :
      (a : ℕ) (b c : String) (d : Value)
      → (record_turn_completed_event a b c d db).1.bindings ≡ db.bindings
  unfolding record_turn_completed_event
  completion-bindings a b c d = ground arith

  started-bindings :
      (a : ℕ) (b c d : String) (e : Bool)
      → (record_turn_started_with_generation a b c d e db).1.bindings ≡ db.bindings
  unfolding record_turn_started_with_generation
  started-bindings a b c d e = ground arith

-- The calls that change the bindings.
abbrev pub is_binding_call : Call → Bool
is_binding_call (activating a b c d e f g) = true
is_binding_call (rotating a b c d e f g) = true
is_binding_call (activating_initial a b c d) = true
is_binding_call _ = false

module _ (st : Storage) (db : Database st.Text) where
  inserting-bindings : (a : ℕ) (s : RunState) → (insert_run st a s db).1.bindings ≡ db.bindings
  unfolding insert_run inserted insert_run_event
  inserting-bindings a s = ground arith

  saving-bindings : (a : ℕ) (s : RunState) → (save_state st a s db).1.bindings ≡ db.bindings
  unfolding save_state update_run_row updated insert_run_event release_if_terminal release_lock
  saving-bindings a s = ground arith

  accepting-bindings :
      (a b : ℕ) (c : String) (s : RunState)
      → (accept_response_and_advance st a b c s db).1.bindings ≡ db.bindings
  unfolding accept_response_and_advance update_run_row updated insert_run_event release_if_terminal
      release_lock accept_turn insert_transition
  accepting-bindings a b c s = ground arith

  beginning-bindings :
      (a : ℕ) (b c : String) (d : ℕ) (e : String) (f : PathBuf)
      → (begin_verification_command st a b c d e f db).1.bindings ≡ db.bindings
  unfolding begin_verification_command insert_claim
  beginning-bindings a b c d e f = ground arith

  completing-bindings :
      (a : ℕ) (b : String) (c : ℕ) (d : ℤ) (e f : String)
      → (complete_verification_command st a b c d e f db).1.bindings ≡ db.bindings
  unfolding complete_verification_command
  completing-bindings a b c d e f = ground arith

  forget-bindings :
      {A : Type 0} (r : Result StoreError A × Database st.Text)
      → r.1.bindings ≡ db.bindings
      → (forget r).1.bindings ≡ db.bindings
  forget-bindings (ok a, d) h = h
  forget-bindings (err f, d) h = h

  restoring-bindings :
      (a : ℕ) (b c d e f : String)
      → (restore_archived_completed_turn_after_ephemeral_loss a b c d e f db).1.bindings
        ≡ db.bindings
  unfolding restore_archived_completed_turn_after_ephemeral_loss
  restoring-bindings a b c d e f = ground arith

  reactivating-bindings :
      (now : ℕ) (r : Reactivation) (admitted : Result StoreError (Unit {0}))
      → (reactivate st now r admitted db).1.bindings ≡ db.bindings
  unfolding reactivate reactivate_txn delete_stale archive_attempt with_transition
      archive_and_reset_turn update_run_row updated insert_run_event
  reactivating-bindings now r admitted = ground arith

  pub call-bindings :
      (c : Call) → is_binding_call c ≡ false → (call st c db).1.bindings ≡ db.bindings
  unfolding call record_turn_started record_recovered_turn_started release_lock
  call-bindings (inserting a b) s = inserting-bindings a b
  call-bindings (saving a b) s = saving-bindings a b
  call-bindings (accepting a b c d) s = accepting-bindings a b c d
  call-bindings (releasing a) s = refl
  call-bindings (starting a b c d) s = started-bindings db a b c d true
  call-bindings (recovering a b c d) s = started-bindings db a b c d false
  call-bindings (beginning a b c d e f) s =
      forget-bindings (begin_verification_command st a b c d e f db)
        (beginning-bindings a b c d e f)
  call-bindings (completing a b c d e f) s =
      forget-bindings (complete_verification_command st a b c d e f db)
        (completing-bindings a b c d e f)
  call-bindings (activating a b c d e f g) s = ground arith
  call-bindings (rotating a b c d e f g) s = ground arith
  call-bindings (activating_initial a b c d) s = ground arith
  call-bindings (requesting a b c d e f) s = requesting-bindings db a b c d e f
  call-bindings (intending a b c) s = intending-bindings db a b c
  call-bindings (resetting_terminal a b c d e) s = terminal-bindings db a b c d e
  call-bindings (resetting_read_only a b c d e) s = read_only-bindings db a b c d e
  call-bindings (resetting_tool_failure a b c d e) s = tool_failure-bindings db a b c d e
  call-bindings (resetting_eventless a b c d) s = eventless-bindings db a b c d
  call-bindings (binding_unsent a) s = unsent-bindings db a
  call-bindings (patching a) s =
      forget-bindings (record_successful_patch_with_provenance a db) (patching-bindings db a)
  call-bindings (recording_item a b c d e) s = item-bindings db a b c d e
  call-bindings (recording_completion a b c d) s = completion-bindings db a b c d
  call-bindings (reactivating a b c) s = reactivating-bindings a b c
  call-bindings (restoring a b c d e f) s = restoring-bindings a b c d e f
