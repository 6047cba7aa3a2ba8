-- ===== src/Store/OperationFrames.antt =====
-- crates/daemon/src/store.rs: the tables that each operation leaves as they were.
use worktree_merge_consensus.Prelude.{ℕ, String, Option, Bool, ◌≡◌, arith}
use worktree_merge_consensus.Json.{Value}
use worktree_merge_consensus.State.Defs.{ℤ, PathBuf}
use worktree_merge_consensus.Store.Defs.{
  StoreError, Storage, PrimaryBindingMode, PatchRow, Database,
}
use worktree_merge_consensus.Store.Turns.{
  record_pending_send_with_binding, record_turn_start_intent, record_turn_started_with_generation,
}
use worktree_merge_consensus.Store.Verification.{
  begin_verification_command, complete_verification_command, insert_claim,
}
use worktree_merge_consensus.Store.Archive.{
  archive_and_reset_turn, reset_terminal_turn_for_retry, reset_completed_read_only_turn_for_retry,
  reset_completed_integration_tool_failure_turn_for_retry,
  reset_eventless_successful_patch_turn_for_retry,
}
use worktree_merge_consensus.Store.Bindings.{activate_primary_binding, put_binding}
use worktree_merge_consensus.Store.Bindings.Rotation.{
  rotate_ephemeral_primary_binding_for_unsent_pending,
  activate_initial_direct_binding_for_pending_send, bind_unsent_primary_pending_to_active_binding,
}
use worktree_merge_consensus.Prelude.Results.{Result}
use worktree_merge_consensus.Store.Runs.{update_run_row, updated, insert_run_event}
use worktree_merge_consensus.Store.Reactivation.{
  Reactivation, reactivate, reactivate_txn, delete_stale, archive_attempt, with_transition,
  restore_archived_completed_turn_after_ephemeral_loss,
}
use worktree_merge_consensus.Store.Patches.{record_successful_patch_with_provenance}
use worktree_merge_consensus.Store.TurnEvents.{record_turn_item_event, record_turn_completed_event}

-- The runs and the locks are as they were.
abbrev pub KeepsRuns : {Text : Type 0} → Database Text → Database Text → Type 0
KeepsRuns db db' = (db'.runs ≡ db.runs) × (db'.locks ≡ db.locks)

-- So are the commands of a verification, the patches and the items of the turns.
abbrev pub Keeps : {Text : Type 0} → Database Text → Database Text → Type 0
Keeps db db' =
    (db'.runs ≡ db.runs)
    × (db'.locks ≡ db.locks)
    × (db'.executions ≡ db.executions)
    × (db'.patch_applications ≡ db.patch_applications)
    × (db'.turn_event_items ≡ db.turn_event_items)

module _ {Text : Type 0} (db : Database Text) where
  pub requesting-Keeps :
      (run_id : ℕ) (role phase : String) (round : ℕ) (hash : String) (generation : Option ℕ)
      → Keeps db (record_pending_send_with_binding run_id role phase round hash generation db).1
  unfolding record_pending_send_with_binding
  requesting-Keeps run_id role phase round hash generation = ground arith

  pub intending-Keeps :
      (now run_id : ℕ) (hash : String) → Keeps db (record_turn_start_intent now run_id hash db).1
  unfolding record_turn_start_intent
  intending-Keeps now run_id hash = ground arith

  pub started-Keeps :
      (run_id : ℕ) (hash thread_id turn_id : String) (generation : Bool)
      → Keeps db (record_turn_started_with_generation run_id hash thread_id turn_id generation db).1
  unfolding record_turn_started_with_generation
  started-Keeps run_id hash thread_id turn_id generation = ground arith

  pub terminal-Keeps :
      (run_id : ℕ) (hash thread_id turn_id status : String)
      → Keeps db (reset_terminal_turn_for_retry run_id hash thread_id turn_id status db).1
  unfolding reset_terminal_turn_for_retry archive_and_reset_turn
  terminal-Keeps run_id hash thread_id turn_id status = ground arith

  pub activating-Keeps :
      (now run_id : ℕ) (source effective : String) (mode : PrimaryBindingMode) (server : String)
      (history : Option String)
      → Keeps db (activate_primary_binding now run_id source effective mode server history db).1
  unfolding activate_primary_binding put_binding
  activating-Keeps now run_id source effective mode server history = ground arith

  pub item-KeepsRuns :
      (run_id : ℕ) (thread_id turn_id method : String) (item : Value)
      → KeepsRuns db (record_turn_item_event run_id thread_id turn_id method item db).1
        × ((record_turn_item_event run_id thread_id turn_id method item db).1.executions
            ≡ db.executions)
        × ((record_turn_item_event run_id thread_id turn_id method item db).1.patch_applications
            ≡ db.patch_applications)
  unfolding record_turn_item_event
  item-KeepsRuns run_id thread_id turn_id method item = ground arith

  pub read_only-Keeps :
      (run_id : ℕ) (hash thread_id turn_id status : String)
      → Keeps db
          (reset_completed_read_only_turn_for_retry run_id hash thread_id turn_id status db).1
  unfolding reset_completed_read_only_turn_for_retry archive_and_reset_turn
  read_only-Keeps run_id hash thread_id turn_id status = ground arith

  pub tool_failure-Keeps :
      (run_id : ℕ) (hash thread_id turn_id status : String)
      → Keeps db
          (reset_completed_integration_tool_failure_turn_for_retry run_id hash thread_id turn_id
            status db).1
  unfolding reset_completed_integration_tool_failure_turn_for_retry archive_and_reset_turn
  tool_failure-Keeps run_id hash thread_id turn_id status = ground arith

  pub eventless-Keeps :
      (run_id : ℕ) (hash thread_id turn_id : String)
      → Keeps db
          (reset_eventless_successful_patch_turn_for_retry run_id hash thread_id turn_id db).1
  unfolding reset_eventless_successful_patch_turn_for_retry archive_and_reset_turn
  eventless-Keeps run_id hash thread_id turn_id = ground arith

  pub rotating-Keeps :
      (now run_id generation : ℕ) (source effective server history : String)
      → Keeps db
          (rotate_ephemeral_primary_binding_for_unsent_pending now run_id generation source
            effective server history db).1
  unfolding rotate_ephemeral_primary_binding_for_unsent_pending put_binding
  rotating-Keeps now run_id generation source effective server history = ground arith

  pub initial-Keeps :
      (now run_id : ℕ) (source server : String)
      → Keeps db (activate_initial_direct_binding_for_pending_send now run_id source server db).1
  unfolding activate_initial_direct_binding_for_pending_send put_binding
  initial-Keeps now run_id source server = ground arith

  pub unsent-Keeps :
      (run_id : ℕ) → Keeps db (bind_unsent_primary_pending_to_active_binding run_id db).1
  unfolding bind_unsent_primary_pending_to_active_binding
  unsent-Keeps run_id = ground arith

  pub patching-KeepsRuns :
      (patch : PatchRow)
      → KeepsRuns db (record_successful_patch_with_provenance patch db).1
        × ((record_successful_patch_with_provenance patch db).1.executions ≡ db.executions)
        × ((record_successful_patch_with_provenance patch db).1.turn_event_items
            ≡ db.turn_event_items)
  unfolding record_successful_patch_with_provenance
  patching-KeepsRuns patch = ground arith

  pub completion-Keeps :
      (run_id : ℕ) (thread_id turn_id : String) (turn : Value)
      → Keeps db (record_turn_completed_event run_id thread_id turn_id turn db).1
  unfolding record_turn_completed_event
  completion-Keeps run_id thread_id turn_id turn = ground arith

module _ {Text : Type 0} (db : Database Text) where
  pub restoring-Keeps :
      (a : ℕ) (b c d e f : String)
      → Keeps db (restore_archived_completed_turn_after_ephemeral_loss a b c d e f db).1
  unfolding restore_archived_completed_turn_after_ephemeral_loss
  restoring-Keeps a b c d e f = ground arith

module _ (st : Storage) (db : Database st.Text) where
  -- A reactivation leaves the commands of a verification and the patches alone.
  pub reactivating-KeepsRecords :
      (now : ℕ) (r : Reactivation) (admitted : Result StoreError (Unit {0}))
      → ((reactivate st now r admitted db).1.executions ≡ db.executions)
        × ((reactivate st now r admitted db).1.patch_applications ≡ db.patch_applications)
  unfolding reactivate reactivate_txn delete_stale archive_attempt with_transition
      archive_and_reset_turn update_run_row updated insert_run_event
  reactivating-KeepsRecords now r admitted = ground arith

  pub beginning-KeepsRuns :
      (run_id : ℕ) (hash turn_id : String) (index : ℕ) (command : String) (path : PathBuf)
      → KeepsRuns db (begin_verification_command st run_id hash turn_id index command path db).1
        × ((begin_verification_command st run_id hash turn_id index command path
              db).1.patch_applications
            ≡ db.patch_applications)
        × ((begin_verification_command st run_id hash turn_id index command path
              db).1.turn_event_items
            ≡ db.turn_event_items)
  unfolding begin_verification_command insert_claim
  beginning-KeepsRuns run_id hash turn_id index command path = ground arith

  pub completing-KeepsRuns :
      (run_id : ℕ) (hash : String) (index : ℕ) (exit_code : ℤ) (stdout stderr : String)
      → KeepsRuns db
          (complete_verification_command st run_id hash index exit_code stdout stderr db).1
        × ((complete_verification_command st run_id hash index exit_code stdout stderr
              db).1.patch_applications
            ≡ db.patch_applications)
        × ((complete_verification_command st run_id hash index exit_code stdout stderr
              db).1.turn_event_items
            ≡ db.turn_event_items)
  unfolding complete_verification_command
  completing-KeepsRuns run_id hash index exit_code stdout stderr = ground arith
