-- ===== src/Store/Frames.antt =====
-- crates/daemon/src/store.rs: the operations that leave the states of the runs alone.
use worktree_merge_consensus.Prelude.{Bool, true, false, ◌≡◌, refl, arith}
use worktree_merge_consensus.Prelude.Results.{Result, ok, err}
use worktree_merge_consensus.Store.Defs.{Storage, StoreError, Database}
use worktree_merge_consensus.Store.Runs.{insert_run, save_state, release_lock}
use worktree_merge_consensus.Store.Turns.{
  record_pending_send_with_binding, record_turn_start_intent, record_turn_started_with_generation,
  record_turn_started, record_recovered_turn_started, accept_response_and_advance,
}
use worktree_merge_consensus.Store.Verification.{
  begin_verification_command, complete_verification_command,
}
use worktree_merge_consensus.Store.Archive.{
  reset_terminal_turn_for_retry, reset_completed_read_only_turn_for_retry,
  reset_completed_integration_tool_failure_turn_for_retry,
  reset_eventless_successful_patch_turn_for_retry,
}
use worktree_merge_consensus.Store.Bindings.{activate_primary_binding}
use worktree_merge_consensus.Store.Bindings.Rotation.{
  rotate_ephemeral_primary_binding_for_unsent_pending,
  activate_initial_direct_binding_for_pending_send, bind_unsent_primary_pending_to_active_binding,
}
use worktree_merge_consensus.Store.Reactivation.{
  restore_archived_completed_turn_after_ephemeral_loss,
}
use worktree_merge_consensus.Store.Patches.{record_successful_patch_with_provenance}
use worktree_merge_consensus.Store.TurnEvents.{record_turn_completed_event}
use worktree_merge_consensus.Store.StateFrames.{
  KeepsRecords, inserting-KeepsRecords, saving-KeepsRecords, accepting-KeepsRecords,
}
use worktree_merge_consensus.Store.Calls.{Call, forget, call}
use worktree_merge_consensus.Store.Calls.Call.{
  inserting, saving, accepting, releasing, requesting, intending, starting, recovering, beginning,
  completing, resetting_terminal, resetting_read_only, resetting_tool_failure, resetting_eventless,
  activating, rotating, activating_initial, binding_unsent, patching, recording_item,
  recording_completion, reactivating, restoring,
}
use worktree_merge_consensus.Store.OperationFrames.{
  KeepsRuns, Keeps, requesting-Keeps, restoring-Keeps, reactivating-KeepsRecords, intending-Keeps,
  started-Keeps, terminal-Keeps, activating-Keeps, item-KeepsRuns, read_only-Keeps,
  tool_failure-Keeps, eventless-Keeps, rotating-Keeps, initial-Keeps, unsent-Keeps,
  patching-KeepsRuns, completion-Keeps, beginning-KeepsRuns, completing-KeepsRuns,
}

-- The calls that write the state of a run.
abbrev pub is_state_call : Call → Bool
is_state_call (inserting now s) = true
is_state_call (saving now s) = true
is_state_call (accepting now run_id hash s) = true
is_state_call (releasing run_id) = true
is_state_call (reactivating now r admitted) = true
is_state_call _ = false

-- The calls that write the commands of a verification, the one that writes a patch, and those that
-- write or delete items.
abbrev pub is_command_call : Call → Bool
is_command_call (beginning a b c d e f) = true
is_command_call (completing a b c d e f) = true
is_command_call _ = false

abbrev pub is_patch_call : Call → Bool
is_patch_call (patching patch) = true
is_patch_call _ = false

abbrev pub is_item_call : Call → Bool
is_item_call (recording_item a b c d e) = true
is_item_call (reactivating now r admitted) = true
is_item_call _ = false

-- What a call leaves as it was.
abbrev pub KeepsBy : {Text : Type 0} → Call → Database Text → Database Text → Type 0
KeepsBy c db db' =
    (is_state_call c ≡ false → KeepsRuns db db')
    × (is_command_call c ≡ false → db'.executions ≡ db.executions)
    × (is_patch_call c ≡ false → db'.patch_applications ≡ db.patch_applications)
    × (is_item_call c ≡ false → db'.turn_event_items ≡ db.turn_event_items)

module _ (st : Storage) (db : Database st.Text) where
  all_kept : (c : Call) (db' : Database st.Text) → Keeps db db' → KeepsBy c db db'
  all_kept c db' (runs, locks, executions, patches, items) =
      (λ _. (runs, locks), λ _. executions, λ _. patches, λ _. items)

  -- The value that a call returns does not matter.
  forgotten :
      {A : Type 0} (c : Call) (r : Result StoreError A × Database st.Text)
      → KeepsBy c db r.1
      → KeepsBy c db (forget r).1
  forgotten c (ok a, db') h = h
  forgotten c (err e, db') h = h

  records_kept :
      (c : Call) (db' : Database st.Text)
      → is_state_call c ≡ true
      → KeepsRecords db db'
      → KeepsBy c db db'
  records_kept c db' s (executions, patches, items) =
      (λ h. ground arith, λ _. executions, λ _. patches, λ _. items)

  -- A call changes the runs and the locks, the commands, the patches, or the items only if it is one of theirs.
  pub call-KeepsBy : (c : Call) → KeepsBy c db (call st c db).1
  unfolding call record_turn_started record_recovered_turn_started release_lock
  call-KeepsBy (inserting a b) =
      records_kept (inserting a b) (insert_run st a b db).1 refl (inserting-KeepsRecords st db a b)
  call-KeepsBy (saving a b) =
      records_kept (saving a b) (save_state st a b db).1 refl (saving-KeepsRecords st db a b)
  call-KeepsBy (accepting a b c d) =
      records_kept (accepting a b c d) (accept_response_and_advance st a b c d db).1 refl
        (accepting-KeepsRecords st db a b c d)
  call-KeepsBy (releasing a) = (λ h. ground arith, λ _. refl, λ _. refl, λ _. refl)
  call-KeepsBy (beginning a b c d e f) =
      let ((runs, locks), patches, items) = beginning-KeepsRuns st db a b c d e f in
      forgotten (beginning a b c d e f) (begin_verification_command st a b c d e f db)
        (λ _. (runs, locks), λ h. ground arith, λ _. patches, λ _. items)
  call-KeepsBy (completing a b c d e f) =
      let ((runs, locks), patches, items) = completing-KeepsRuns st db a b c d e f in
      forgotten (completing a b c d e f) (complete_verification_command st a b c d e f db)
        (λ _. (runs, locks), λ h. ground arith, λ _. patches, λ _. items)
  call-KeepsBy (patching a) =
      let ((runs, locks), executions, items) = patching-KeepsRuns db a in
      forgotten (patching a) (record_successful_patch_with_provenance a db)
        (λ _. (runs, locks), λ _. executions, λ h. ground arith, λ _. items)
  call-KeepsBy (requesting a b c d e f) =
      all_kept (requesting a b c d e f) (record_pending_send_with_binding a b c d e f db).1
        (requesting-Keeps db a b c d e f)
  call-KeepsBy (intending a b c) =
      all_kept (intending a b c) (record_turn_start_intent a b c db).1 (intending-Keeps db a b c)
  call-KeepsBy (starting a b c d) =
      all_kept (starting a b c d) (record_turn_started_with_generation a b c d true db).1
        (started-Keeps db a b c d true)
  call-KeepsBy (recovering a b c d) =
      all_kept (recovering a b c d) (record_turn_started_with_generation a b c d false db).1
        (started-Keeps db a b c d false)
  call-KeepsBy (resetting_terminal a b c d e) =
      all_kept (resetting_terminal a b c d e) (reset_terminal_turn_for_retry a b c d e db).1
        (terminal-Keeps db a b c d e)
  call-KeepsBy (resetting_read_only a b c d e) =
      all_kept (resetting_read_only a b c d e)
        (reset_completed_read_only_turn_for_retry a b c d e db).1 (read_only-Keeps db a b c d e)
  call-KeepsBy (resetting_tool_failure a b c d e) =
      all_kept (resetting_tool_failure a b c d e)
        (reset_completed_integration_tool_failure_turn_for_retry a b c d e db).1
        (tool_failure-Keeps db a b c d e)
  call-KeepsBy (resetting_eventless a b c d) =
      all_kept (resetting_eventless a b c d)
        (reset_eventless_successful_patch_turn_for_retry a b c d db).1 (eventless-Keeps db a b c d)
  call-KeepsBy (activating a b c d e f g) =
      forgotten (activating a b c d e f g) (activate_primary_binding a b c d e f g db) (
        all_kept (activating a b c d e f g) (activate_primary_binding a b c d e f g db).1
          (activating-Keeps db a b c d e f g))
  call-KeepsBy (rotating a b c d e f g) =
      forgotten (rotating a b c d e f g)
        (rotate_ephemeral_primary_binding_for_unsent_pending a b c d e f g db)
        (all_kept (rotating a b c d e f g)
          (rotate_ephemeral_primary_binding_for_unsent_pending a b c d e f g db).1
          (rotating-Keeps db a b c d e f g))
  call-KeepsBy (activating_initial a b c d) =
      forgotten (activating_initial a b c d)
        (activate_initial_direct_binding_for_pending_send a b c d db)
        (all_kept (activating_initial a b c d)
          (activate_initial_direct_binding_for_pending_send a b c d db).1
          (initial-Keeps db a b c d))
  call-KeepsBy (binding_unsent a) =
      all_kept (binding_unsent a) (bind_unsent_primary_pending_to_active_binding a db).1
        (unsent-Keeps db a)
  call-KeepsBy (recording_item a b c d e) =
      let ((runs, locks), executions, patches) = item-KeepsRuns db a b c d e in
      (λ _. (runs, locks), λ _. executions, λ _. patches, λ h. ground arith)
  call-KeepsBy (recording_completion a b c d) =
      all_kept (recording_completion a b c d) (record_turn_completed_event a b c d db).1
        (completion-Keeps db a b c d)
  call-KeepsBy (restoring a b c d e f) =
      all_kept (restoring a b c d e f)
        (restore_archived_completed_turn_after_ephemeral_loss a b c d e f db).1
        (restoring-Keeps db a b c d e f)
  call-KeepsBy (reactivating a b c) =
      let (executions, patches) = reactivating-KeepsRecords st db a b c in
      (λ h. ground arith, λ _. executions, λ _. patches, λ h. ground arith)
