-- ===== src/Store/Runs.antt =====
-- crates/daemon/src/store.rs: runs inserted, loaded, listed and saved, and their locks.
pub mod View
pub mod Saved
use worktree_merge_consensus.Prelude.{
  ℕ, ◌+◌, Bool, true, false, not, ◌&&◌, ◌||◌, String, Option, none, some, List, [], ◌∷◌, map, any,
  ltb, if◌then◌else◌, ◌==◌, nat_eq, string_eq,
}
use worktree_merge_consensus.Prelude.Results.{Result, ok, err, ◌>>=◌, ◌>>◌, guard, ok_or}
use worktree_merge_consensus.Prelude.Tables.{find, delete, update}
use worktree_merge_consensus.State.Defs.{Phase, RunStatus, RunState, Codec}
use worktree_merge_consensus.State.Equality.{state_eq}
use worktree_merge_consensus.Store.Defs.{
  Storage, StoreError, RunRow, FactsRow, LockRow, EventRow, Database,
}
use worktree_merge_consensus.Store.Txn.{Txn, commit, has_run, ensure_run_exists}
use worktree_merge_consensus.Store.Codec.{serialize_state, deserialize_state, is_terminal}

-- The event of a step from one state to the next.
unfoldable pub insert_run_event :
    {Text : Type 0} → Option RunState → RunState → Database Text → Database Text
insert_run_event previous s db = record db {
  run_events =
      record { id = db.next_event; run_id = s.facts.run_id; previous = previous; state = s }
      ∷ db.run_events;
  next_event = db.next_event + 1;
}

unfoldable pub release_lock : {Text : Type 0} → ℕ → Database Text → Database Text
release_lock run_id db = record db {
  locks = delete (λ (lock : LockRow). lock.run_id == run_id) db.locks;
}

-- The lock is unique in each of its columns.
unfoldable pub is_locked : LockRow → List LockRow → Bool
is_locked new locks =
    any
      (λ lock.
        lock.repository_id == new.repository_id
        || lock.run_id == new.run_id
        || lock.primary_worktree == new.primary_worktree)
      locks

-- The lock goes where a run has come to its end.
unfoldable pub release_if_terminal : {Text : Type 0} → RunState → Database Text → Database Text
release_if_terminal s db = if is_terminal s.status then release_lock s.facts.run_id db else db

module _ (st : Storage) where
  unfoldable pub row_of : ℕ → RunState → st.Text → RunRow st.Text
  row_of now s text = record {
    run_id = s.facts.run_id;
    state_json = text;
    status = s.status;
    phase = s.phase;
    round = s.round;
    plan_revision = s.plan_revision;
    integration_branch = s.integration_branch;
    integration_sha = s.integration_sha;
    reason_code = s.reason_code;
    updated_at = now;
  }

  unfoldable pub lock_of : RunState → LockRow
  lock_of s = record {
    repository_id = st.to_string_lossy s.facts.git_common_dir;
    run_id = s.facts.run_id;
    primary_worktree = st.to_string_lossy s.facts.primary_worktree;
  }

  unfoldable pub has_facts : ℕ → Database st.Text → Bool
  has_facts run_id db = any (λ (row : FactsRow). row.run_id == run_id) db.source_facts

  unfoldable pub inserted : ℕ → RunState → st.Text → Database st.Text → Database st.Text
  inserted now s text db = insert_run_event none s (record db {
    runs = row_of now s text ∷ db.runs;
    source_facts = record { run_id = s.facts.run_id; facts = s.facts } ∷ db.source_facts;
    locks = lock_of s ∷ db.locks;
  })

  pub insert_run_txn : ℕ → RunState → Database st.Text → Txn st.Text (Unit {0})
  insert_run_txn now s db = do
    text ← serialize_state st s
    guard StoreError.database (not (has_run s.facts.run_id db))
    guard StoreError.database (not (has_facts s.facts.run_id db))
    guard StoreError.active_run_exists (not (is_locked (lock_of s) db.locks))
    ok (tt, inserted now s text db)

  unfoldable pub insert_run :
      ℕ → RunState → Database st.Text → Result StoreError (Unit {0}) × Database st.Text
  unfolding insert_run_txn
  insert_run now s db = commit db (insert_run_txn now s db)

  unfoldable pub find_run : ℕ → Database st.Text → Option (RunRow st.Text)
  find_run run_id db = find (λ (row : RunRow st.Text). row.run_id == run_id) db.runs

  abbrev pub loaded : Option (RunRow st.Text) → Result StoreError (Option RunState)
  loaded none = ok none
  loaded (some row) = deserialize_state st row.state_json >>= λ s. ok (some s)

  unfoldable pub load_run : ℕ → Database st.Text → Result StoreError (Option RunState)
  load_run run_id db = loaded (find_run run_id db)

  unfoldable pub updated_runs :
      ℕ → ℕ → RunState → st.Text → List (RunRow st.Text) → List (RunRow st.Text)
  updated_runs now run_id s text runs =
      update (λ (row : RunRow st.Text). row.run_id == run_id)
        (λ (row : RunRow st.Text). record (row_of now s text) { run_id = row.run_id }) runs

  -- The event is written only where the state changed.
  unfoldable pub updated :
      ℕ → ℕ → RunState → RunState → st.Text → Database st.Text → Database st.Text
  updated now run_id previous s text db =
      let db' = record db { runs = updated_runs now run_id s text db.runs } in
      if previous == s then db' else insert_run_event (some previous) s db'

  unfoldable pub update_run_row : ℕ → ℕ → RunState → Database st.Text → Txn st.Text (Unit {0})
  update_run_row now run_id s db = do
    row ← ok_or (find_run run_id db) StoreError.run_not_found
    previous ← deserialize_state st row.state_json
    text ← serialize_state st s
    ok (tt, updated now run_id previous s text db)

  pub save_state_txn : ℕ → RunState → Database st.Text → Txn st.Text (Unit {0})
  save_state_txn now s db = do
    ensure_run_exists s.facts.run_id db
    updated ← update_run_row now s.facts.run_id s db
    ok (tt, release_if_terminal s updated.1)

  unfoldable pub save_state :
      ℕ → RunState → Database st.Text → Result StoreError (Unit {0}) × Database st.Text
  unfolding save_state_txn
  save_state now s db = commit db (save_state_txn now s db)
