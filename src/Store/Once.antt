-- ===== src/Store/Once.antt =====
-- crates/daemon/src/store.rs: a command of a verification is handed out to be run once, whatever
-- happens in between.
use worktree_merge_consensus.Prelude.{
  ℕ, String, true, List, [], ◌∷◌, any, ◌≡◌, refl, ◌∙◌, arith, inl, inr, nat_eq, string_eq,
}
use worktree_merge_consensus.Prelude.Results.{Result, ok, err, Result-cases}
use worktree_merge_consensus.Prelude.Tables.{select, any-update, select-any}
use worktree_merge_consensus.State.Defs.{ℤ, PathBuf}
use worktree_merge_consensus.Store.Defs.{Storage, StoreError, ExecutionRow, Database}
use worktree_merge_consensus.Store.Txn.{commit-ok}
use worktree_merge_consensus.Store.Verification.{
  VerificationCommandClaim, is_command, is_claimed_by, is_started, complete_row, started_row,
  begin_txn, begin_verification_command, complete_verification_command,
}
use worktree_merge_consensus.Store.Calls.{Call, forget, call, run_calls}
use worktree_merge_consensus.Store.Calls.Call.{beginning, completing}
use worktree_merge_consensus.Store.Frames.{call-KeepsBy}
use worktree_merge_consensus.Store.Claims.{
  is_command-claimed, is_command-complete_row, read_rows-nil, begin_txn-execute, started-IsCommand,
  begin-executions,
}

module _ (st : Storage) where
  module _ (run_id : ℕ) (hash : String) (index : ℕ) where
    claimed_cons :
        (rows : List ExecutionRow) (row : ExecutionRow)
        → any (is_command run_id hash index) rows ≡ true
        → any (is_command run_id hash index) (row ∷ rows) ≡ true
    unfolding any
    claimed_cons rows row h = ground arith

    claimed_here :
        (rows : List ExecutionRow) (row : ExecutionRow)
        → is_command run_id hash index row ≡ true
        → any (is_command run_id hash index) (row ∷ rows) ≡ true
    unfolding any
    claimed_here rows row h = ground arith

    completing-IsClaimed :
        (a : ℕ) (b : String) (c : ℕ) (exit_code : ℤ) (stdout stderr : String)
        (db : Database st.Text)
        → any
            (is_command run_id hash index)
            (complete_verification_command st a b c exit_code stdout stderr db).1.executions
          ≡ any (is_command run_id hash index) db.executions
    unfolding complete_verification_command
    completing-IsClaimed a b c exit_code stdout stderr db = ground (
      arith,
      any-update (is_started a b c) (is_command run_id hash index)
          (complete_row exit_code stdout stderr) db.executions
          (is_command-complete_row run_id hash index exit_code stdout stderr),
    )

    -- A record of the command stays, whatever is called.
    beginning-IsClaimed :
        (a : ℕ) (b turn_id : String) (c : ℕ) (command : String) (path : PathBuf)
        (db : Database st.Text)
        → any (is_command run_id hash index) db.executions ≡ true
        → any
            (is_command run_id hash index)
            (begin_verification_command st a b turn_id c command path db).1.executions
          ≡ true
    unfolding begin_verification_command
    beginning-IsClaimed a b turn_id c command path db h =
        elim (Result-cases (begin_txn st a b turn_id c command path db)) [
          | inr (e, q) ↦ rw q h
          | inl ((claim, db'), q) ↦
              rw q (elim (begin-executions st a b turn_id c command path db db' claim q) [
                | inl same ↦ rw same h
                | inr (row, more) ↦ rw more (claimed_cons db.executions row h)
              ])
        ]

    forget_right :
        {A : Type 0} (r : Result StoreError A × Database st.Text)
        → (forget r).1.executions ≡ r.1.executions
    forget_right (ok a, db) = refl
    forget_right (err e, db) = refl

    call-IsClaimed :
        (c : Call) (db : Database st.Text)
        → any (is_command run_id hash index) db.executions ≡ true
        → any (is_command run_id hash index) (call st c db).1.executions ≡ true
    call-IsClaimed (beginning a b turn_id c command path) db h =
        unfold call in
        rw (forget_right (begin_verification_command st a b turn_id c command path db))
          (beginning-IsClaimed a b turn_id c command path db h)
    call-IsClaimed (completing a b c exit_code stdout stderr) db h =
        unfold call in
        rw (forget_right (complete_verification_command st a b c exit_code stdout stderr db))
          (completing-IsClaimed a b c exit_code stdout stderr db ∙ h)
    call-IsClaimed c db h = rw ((call-KeepsBy st db c).1 refl) h

    calls-IsClaimed :
        (cs : List Call) (db : Database st.Text)
        → any (is_command run_id hash index) db.executions ≡ true
        → any (is_command run_id hash index) (run_calls st cs db).executions ≡ true
    unfolding run_calls
    calls-IsClaimed [] db h = h
    calls-IsClaimed (c ∷ cs) db h = calls-IsClaimed cs (call st c db).1 (call-IsClaimed c db h)

    -- Where the command is on record, no claim lets it run.
    claimed-refuses :
        (turn_id command : String) (path : PathBuf) (row : ExecutionRow) (db db' : Database st.Text)
        → any (is_command run_id hash index) db.executions ≡ true
        → ¬ (
            begin_txn st run_id hash turn_id index command path db
            ≡ ok (VerificationCommandClaim.execute row, db'))
    claimed-refuses turn_id command path row db db' h q =
        let (none_read, _) =
          begin_txn-execute st run_id hash turn_id index command path row db db' q in
        read_rows-nil (select (is_claimed_by run_id hash turn_id index) db.executions)
          (select-any (is_claimed_by run_id hash turn_id index) (is_command run_id hash index)
            db.executions h (is_command-claimed run_id hash turn_id index))
          none_read

    execute-claims :
        (turn_id command : String) (path : PathBuf) (row : ExecutionRow) (db db' : Database st.Text)
        → begin_txn st run_id hash turn_id index command path db
          ≡ ok (VerificationCommandClaim.execute row, db')
        → any (is_command run_id hash index) db'.executions ≡ true
    execute-claims turn_id command path row db db' q =
        let (_, (cwd, e)) =
          begin_txn-execute st run_id hash turn_id index command path row db db' q in
        rw e (
          claimed_here db.executions (started_row st run_id hash turn_id index command cwd)
            (started-IsCommand st run_id hash turn_id index command cwd))

    -- A command of a request that was handed out to be run is never handed out again, for any turn,
    -- after any calls that succeed or fail.
    pub begin_verification_command-once :
        (turn_id command : String) (path : PathBuf) (row : ExecutionRow) (db : Database st.Text)
        → (begin_verification_command st run_id hash turn_id index command path db).0
          ≡ ok (VerificationCommandClaim.execute row)
        → (cs : List Call) (turn_id' command' : String) (path' : PathBuf) (row' : ExecutionRow)
        → ¬ (
            (begin_verification_command st run_id hash turn_id' index command' path' (
              run_calls st cs
                (begin_verification_command st run_id hash turn_id index command path db).1)).0
            ≡ ok (VerificationCommandClaim.execute row'))
    unfolding begin_verification_command
    begin_verification_command-once turn_id command path row db first cs turn_id' command' path'
          row' again =
        let (db', run, left) =
          commit-ok db (begin_txn st run_id hash turn_id index command path db)
            (VerificationCommandClaim.execute row) first in
        let later =
          run_calls st cs
            (begin_verification_command st run_id hash turn_id index command path db).1 in
        let (db'', run', _) =
          commit-ok later (begin_txn st run_id hash turn_id' index command' path' later)
            (VerificationCommandClaim.execute row') again in
        let held =
          calls-IsClaimed cs
            (begin_verification_command st run_id hash turn_id index command path db).1
            (rw left (execute-claims turn_id command path row db db' run)) in
        claimed-refuses turn_id' command' path' row' later db'' held run'
