-- ===== src/Store/StateFrames.antt =====
-- crates/daemon/src/store.rs: what the calls that write a state leave alone, and what all others do.
use worktree_merge_consensus.Prelude.{ℕ, String, ◌≡◌, arith}
use worktree_merge_consensus.State.Defs.{RunState}
use worktree_merge_consensus.Store.Defs.{Storage, Database}
use worktree_merge_consensus.Store.Runs.{
  insert_run, save_state, release_lock, release_if_terminal, inserted, insert_run_event, updated,
  update_run_row,
}
use worktree_merge_consensus.Store.Turns.{
  accept_response_and_advance, accept_turn, insert_transition,
}

-- The commands of a verification, the patches and the items are as they were.
abbrev pub KeepsRecords : {Text : Type 0} → Database Text → Database Text → Type 0
KeepsRecords db db' =
    (db'.executions ≡ db.executions)
    × (db'.patch_applications ≡ db.patch_applications)
    × (db'.turn_event_items ≡ db.turn_event_items)

module _ (st : Storage) (db : Database st.Text) where
  pub inserting-KeepsRecords : (now : ℕ) (s : RunState) → KeepsRecords db (insert_run st now s db).1
  unfolding insert_run inserted insert_run_event
  inserting-KeepsRecords now s = ground arith

  pub saving-KeepsRecords : (now : ℕ) (s : RunState) → KeepsRecords db (save_state st now s db).1
  unfolding save_state update_run_row updated insert_run_event release_if_terminal release_lock
  saving-KeepsRecords now s = ground arith

  pub accepting-KeepsRecords :
      (now run_id : ℕ) (hash : String) (s : RunState)
      → KeepsRecords db (accept_response_and_advance st now run_id hash s db).1
  unfolding accept_response_and_advance update_run_row updated insert_run_event release_if_terminal
      release_lock accept_turn insert_transition
  accepting-KeepsRecords now run_id hash s = ground arith
