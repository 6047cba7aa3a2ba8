-- ===== src/Store/Runs/View.antt =====
-- crates/daemon/src/store.rs: what is loaded after a run was inserted or updated.
use worktree_merge_consensus.Prelude.{
  ℕ, true, false, some, List, ◌≡◌, refl, ◌∙◌, ap, arith, inl, inr, Bool-cases, Option-cases, ◌==◌,
  nat_eq, eqb_refl, eqb_sound, subst, if◌then◌else◌,
}
use native.Mathlib.Decide.{ℕ_discrete}
use worktree_merge_consensus.Prelude.Results.{ok, Result-cases}
use worktree_merge_consensus.Prelude.Tables.{find, find-update_self, find-update_other}
use worktree_merge_consensus.State.Defs.{RunState}
use worktree_merge_consensus.State.Equality.{state_eq}
use worktree_merge_consensus.Store.Defs.{Storage, RunRow, Database}
use worktree_merge_consensus.Store.Codec.{
  serialize_state, deserialize_state, read_back, is_terminal,
}
use worktree_merge_consensus.Store.Runs.{
  row_of, insert_run_event, release_lock, release_if_terminal, inserted, find_run, loaded, load_run,
  update_run_row, updated, updated_runs,
}

module _ (st : Storage) where
  -- What is loaded depends on the table of the runs alone.
  pub load_run-runs :
      (k : ℕ) (db db' : Database st.Text)
      → db'.runs ≡ db.runs
      → load_run st k db' ≡ load_run st k db
  unfolding load_run find_run
  load_run-runs k db db' e = rw e refl

  pub release_if_terminal-runs :
      (s : RunState) (db : Database st.Text) → (release_if_terminal s db).runs ≡ db.runs
  unfolding release_if_terminal release_lock
  release_if_terminal-runs s db = elim (Bool-cases (is_terminal s.status)) [
    | inl e ↦ rw e refl
    | inr e ↦ rw e refl
  ]

  pub load_run-inserted :
      (now : ℕ) (s : RunState) (text : st.Text) (db : Database st.Text) (k : ℕ)
      → st.to_string s ≡ text
      → load_run st k (inserted st now s text db)
        ≡ (if s.facts.run_id == k then read_back st s else load_run st k db)
  unfolding load_run find_run inserted insert_run_event row_of find
  load_run-inserted now s text db k read = ground arith

  pub updated-runs :
      (now run_id : ℕ) (previous s : RunState) (text : st.Text) (db : Database st.Text)
      → (updated st now run_id previous s text db).runs ≡ updated_runs st now run_id s text db.runs
  unfolding updated insert_run_event
  updated-runs now run_id previous s text db = elim (Bool-cases (previous == s)) [
    | inl e ↦ rw e refl
    | inr e ↦ rw e refl
  ]

  -- An update that succeeds found the run, and what it stored passed the check.
  pub update_run_row-ok :
      (now run_id : ℕ) (s : RunState) (db db' : Database st.Text)
      → update_run_row st now run_id s db ≡ ok (tt, db')
      → (row : RunRow st.Text) × (previous : RunState) × (text : st.Text) × (find_run st run_id db
          ≡ some row)
        × (deserialize_state st row.state_json ≡ ok previous)
        × (serialize_state st s ≡ ok text)
        × (db' ≡ updated st now run_id previous s text db)
  unfolding update_run_row
  update_run_row-ok now run_id s db db' h = elim (Option-cases (find_run st run_id db)) [
    | inl e ↦ ground arith
    | inr (row, e) ↦ elim (Result-cases (deserialize_state st row.state_json)) [
      | inr (failure, q) ↦ ground arith
      | inl (previous, q) ↦ elim (Result-cases (serialize_state st s)) [
        | inr (failure, w) ↦ ground arith
        | inl (text, w) ↦ (row, previous, text, e, q, w, ground arith)
      ]
    ]
  ]

  find-updated_same :
      (now run_id : ℕ) (s : RunState) (text : st.Text) (runs : List (RunRow st.Text))
      (row : RunRow st.Text)
      → find (λ (row : RunRow st.Text). row.run_id == run_id) runs ≡ some row
      → find
          (λ (row : RunRow st.Text). row.run_id == run_id)
          (updated_runs st now run_id s text runs)
        ≡ some (record (row_of st now s text) { run_id = run_id })
  unfolding updated_runs
  find-updated_same now run_id s text runs row found =
      find-update_self (λ (row : RunRow st.Text). row.run_id == run_id)
        (λ (row : RunRow st.Text). record (row_of st now s text) { run_id = row.run_id })
        (record (row_of st now s text) { run_id = run_id }) runs
        (λ x h.
          ap (λ id. record (row_of st now s text) { run_id = id })
            (eqb_sound ℕ_discrete x.run_id run_id h))
        (eqb_refl ℕ_discrete run_id) row found

  find-updated_other :
      (now run_id : ℕ) (s : RunState) (text : st.Text) (runs : List (RunRow st.Text)) (k : ℕ)
      → (run_id == k) ≡ false
      → find (λ (row : RunRow st.Text). row.run_id == k) (updated_runs st now run_id s text runs)
        ≡ find (λ (row : RunRow st.Text). row.run_id == k) runs
  unfolding updated_runs
  find-updated_other now run_id s text runs k other =
      find-update_other (λ (row : RunRow st.Text). row.run_id == run_id)
        (λ (row : RunRow st.Text). row.run_id == k)
        (λ (row : RunRow st.Text). record (row_of st now s text) { run_id = row.run_id }) runs apart
        apart
    where
      apart : (x : RunRow st.Text) → (x.run_id == run_id) ≡ true → (x.run_id == k) ≡ false
      apart x h = rw (eqb_sound ℕ_discrete x.run_id run_id h) other

  pub load-updated :
      (now run_id : ℕ) (s : RunState) (text : st.Text) (db db' : Database st.Text)
      (row : RunRow st.Text) (k : ℕ)
      → st.to_string s ≡ text
      → find_run st run_id db ≡ some row
      → db'.runs ≡ updated_runs st now run_id s text db.runs
      → load_run st k db' ≡ (if run_id == k then read_back st s else load_run st k db)
  unfolding load_run find_run row_of
  load-updated now run_id s text db db' row k read found e = elim (Bool-cases (run_id == k)) [
    | inl same ↦ rw same (
        subst (λ j. load_run st j db' ≡ read_back st s) (eqb_sound ℕ_discrete run_id k same)
          (ap (λ runs. loaded st (find (λ (row : RunRow st.Text). row.run_id == run_id) runs)) e
            ∙ ap (loaded st) (find-updated_same now run_id s text db.runs row found)
            ∙ rw read refl))
    | inr other ↦ rw other (
        ap (λ runs. loaded st (find (λ (row : RunRow st.Text). row.run_id == k) runs)) e
        ∙ ap (loaded st) (find-updated_other now run_id s text db.runs k other))
  ]
