-- ===== src/Store/Runs/Saved.antt =====
-- crates/daemon/src/store.rs: a run that was inserted or saved is loaded as its text is read, and no
-- other run is touched.
use worktree_merge_consensus.Prelude.{
  ℕ, false, Option, ◌≡◌, ◌∙◌, ap, arith, inl, inr, ◌==◌, nat_eq, if◌then◌else◌,
}
use worktree_merge_consensus.Prelude.Results.{Result, ok, err, Result-cases}
use worktree_merge_consensus.State.Defs.{RunState}
use worktree_merge_consensus.Store.Defs.{Storage, StoreError, Database}
use worktree_merge_consensus.Store.Txn.{commit-ok, commit-err}
use worktree_merge_consensus.Store.Codec.{serialize_state, read_back, serialize_state-text}
use worktree_merge_consensus.Store.Runs.{
  is_locked, lock_of, inserted, insert_run_txn, insert_run, load_run, release_if_terminal,
  update_run_row, save_state_txn, save_state,
}
use worktree_merge_consensus.Store.Runs.View.{
  load_run-runs, release_if_terminal-runs, load_run-inserted, update_run_row-ok, updated-runs,
  load-updated,
}

-- What is loaded where one run is set.
abbrev pub set_run :
    (st : Storage)
    → RunState
    → ℕ
    → Result StoreError (Option RunState)
    → Result StoreError (Option RunState)
set_run st s k before = if s.facts.run_id == k then read_back st s else before

module _ (st : Storage) where
  insert_run_txn-ok :
      (now : ℕ) (s : RunState) (db db' : Database st.Text)
      → insert_run_txn st now s db ≡ ok (tt, db')
      → (text : st.Text) × (serialize_state st s ≡ ok text)
        × (db' ≡ inserted st now s text db)
        × (is_locked (lock_of st s) db.locks ≡ false)
  unfolding insert_run_txn
  insert_run_txn-ok now s db db' h = elim (Result-cases (serialize_state st s)) [
    | inr (e, q) ↦ ground arith
    | inl (text, q) ↦ (text, q, ground arith, ground arith)
  ]

  pub insert_run-ok :
      (now : ℕ) (s : RunState) (db : Database st.Text)
      → (insert_run st now s db).0 ≡ ok tt
      → (text : st.Text) × ((insert_run st now s db).1 ≡ inserted st now s text db)
        × (is_locked (lock_of st s) db.locks ≡ false)
  unfolding insert_run
  insert_run-ok now s db h =
      let (db', run, left) = commit-ok db (insert_run_txn st now s db) tt h in
      let (text, written, e, free) = insert_run_txn-ok now s db db' run in (text, left ∙ e, free)

  pub insert_run-err :
      (now : ℕ) (s : RunState) (db : Database st.Text) (e : StoreError)
      → (insert_run st now s db).0 ≡ err e
      → (insert_run st now s db).1 ≡ db
  unfolding insert_run
  insert_run-err now s db e h = commit-err db (insert_run_txn st now s db) e h

  save_state_txn-ok :
      (now : ℕ) (s : RunState) (db db' : Database st.Text)
      → save_state_txn st now s db ≡ ok (tt, db')
      → (db1 : Database st.Text) × (update_run_row st now s.facts.run_id s db ≡ ok (tt, db1))
        × (db' ≡ release_if_terminal s db1)
  unfolding save_state_txn
  save_state_txn-ok now s db db' h =
      elim (Result-cases (update_run_row st now s.facts.run_id s db)) [
        | inr (e, q) ↦ ground arith
        | inl ((tt, db1), q) ↦ (db1, q, ground arith)
      ]

  pub save_state-ok :
      (now : ℕ) (s : RunState) (db : Database st.Text)
      → (save_state st now s db).0 ≡ ok tt
      → (db1 : Database st.Text) × (update_run_row st now s.facts.run_id s db ≡ ok (tt, db1))
        × ((save_state st now s db).1 ≡ release_if_terminal s db1)
  unfolding save_state
  save_state-ok now s db h =
      let (db', run, left) = commit-ok db (save_state_txn st now s db) tt h in
      let (db1, update, e) = save_state_txn-ok now s db db' run in (db1, update, left ∙ e)

  pub save_state-err :
      (now : ℕ) (s : RunState) (db : Database st.Text) (e : StoreError)
      → (save_state st now s db).0 ≡ err e
      → (save_state st now s db).1 ≡ db
  unfolding save_state
  save_state-err now s db e h = commit-err db (save_state_txn st now s db) e h

module _ (st : Storage) where
  pub load_run-insert_run :
      (now : ℕ) (s : RunState) (db : Database st.Text) (k : ℕ)
      → (insert_run st now s db).0 ≡ ok tt
      → load_run st k (insert_run st now s db).1 ≡ set_run st s k (load_run st k db)
  unfolding insert_run
  load_run-insert_run now s db k h =
      let (db', run, left) = commit-ok db (insert_run_txn st now s db) tt h in
      let (text, written, e, _) = insert_run_txn-ok st now s db db' run in
      ap (load_run st k) (left ∙ e)
      ∙ load_run-inserted st now s text db k (serialize_state-text st s text written)

  pub load_run-update :
      (now run_id : ℕ) (s : RunState) (db db' : Database st.Text) (k : ℕ)
      → update_run_row st now run_id s db ≡ ok (tt, db')
      → load_run st k db' ≡ (if run_id == k then read_back st s else load_run st k db)
  load_run-update now run_id s db db' k h =
      let (row, previous, text, found, _, written, e) =
        update_run_row-ok st now run_id s db db' h in
      load-updated st now run_id s text db db' row k (serialize_state-text st s text written) found
        (ap (λ (d : Database st.Text). d.runs) e ∙ updated-runs st now run_id previous s text db)

  pub load_run-save_state :
      (now : ℕ) (s : RunState) (db : Database st.Text) (k : ℕ)
      → (save_state st now s db).0 ≡ ok tt
      → load_run st k (save_state st now s db).1 ≡ set_run st s k (load_run st k db)
  load_run-save_state now s db k h =
      let (db1, update, e) = save_state-ok st now s db h in
      ap (load_run st k) e
      ∙ load_run-runs st k db1 (release_if_terminal s db1) (release_if_terminal-runs st s db1)
      ∙ load_run-update now s.facts.run_id s db db1 k update
