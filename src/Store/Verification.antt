-- ===== src/Store/Verification.antt =====
-- crates/daemon/src/store.rs: the commands of a verification, claimed before they run and completed
-- after.
use worktree_merge_consensus.Prelude.{
  ℕ, Bool, not, ◌&&◌, ◌||◌, String, none, some, List, [], ◌∷◌, any, count_of, is_some,
  if◌then◌else◌, ◌==◌, nat_eq, string_eq, option_eq,
}
use worktree_merge_consensus.Prelude.Results.{Result, ok, err, ◌>>=◌, ◌>>◌, guard, ok_or}
use worktree_merge_consensus.Prelude.Tables.{find, select, update}
use worktree_merge_consensus.Text.{append}
use worktree_merge_consensus.Text.Decimal.{decimal}
use worktree_merge_consensus.State.Defs.{ℤ, integer_eq, PathBuf}
use worktree_merge_consensus.Store.Defs.{
  Storage, StoreError, Execution, execution_eq, ExecutionRow, Database,
}
use worktree_merge_consensus.Store.Txn.{Txn, commit, ensure_run_exists}

pub data VerificationCommandClaim : Type 0 where
  execute reuse : ExecutionRow → VerificationCommandClaim

-- What a row of the table is read as, or the error of its conversion.
unfoldable pub read_row : ExecutionRow → Result StoreError ExecutionRow
read_row row = elim row.status [
  | Execution.started ↦
      if is_some row.exit_code || is_some row.stdout || is_some row.stderr
      then err StoreError.database
      else ok row
  | Execution.completed ↦
      if is_some row.exit_code || is_some row.stdout || is_some row.stderr
      then ok row
      else err StoreError.database
]

unfoldable pub read_rows : List ExecutionRow → Result StoreError (List ExecutionRow)
unfolding read_row
read_rows [] = ok []
read_rows (row ∷ rows) = read_row row >>= λ r. read_rows rows >>= λ rs. ok (r ∷ rs)

-- `UNIQUE(run_id, message_hash, command_index)`
unfoldable pub is_command : ℕ → String → ℕ → ExecutionRow → Bool
is_command run_id message_hash index row =
    row.run_id == run_id && row.message_hash == message_hash && row.command_index == index

unfoldable pub is_started : ℕ → String → ℕ → ExecutionRow → Bool
unfolding is_command
is_started run_id message_hash index row =
    is_command run_id message_hash index row && row.status == Execution.started

unfoldable pub is_claimed_by : ℕ → String → String → ℕ → ExecutionRow → Bool
is_claimed_by run_id message_hash turn_id index row =
    row.run_id == run_id
    && row.command_index == index
    && (row.message_hash == message_hash || row.turn_id == turn_id)

-- `UNIQUE(run_id, item_id)`
unfoldable pub is_item : ℕ → String → ExecutionRow → Bool
is_item run_id item_id row = row.run_id == run_id && row.item_id == item_id

-- The row that is completed.
unfoldable pub complete_row : ℤ → String → String → ExecutionRow → ExecutionRow
complete_row exit_code stdout stderr row = record row {
  status = Execution.completed;
  exit_code = some exit_code;
  stdout = some stdout;
  stderr = some stderr;
}

unfoldable pub has_output : ℤ → String → String → ExecutionRow → Bool
has_output exit_code stdout stderr row =
    row.exit_code == some exit_code && row.stdout == some stdout && row.stderr == some stderr

-- What is made of a claim that is on record.
unfoldable pub claim_of : ExecutionRow → Result StoreError VerificationCommandClaim
claim_of row = elim row.status [
  | Execution.started ↦ err StoreError.verification_execution_uncertain
  | Execution.completed ↦ ok (VerificationCommandClaim.reuse row)
]

unfoldable pub verification_command_item_id : String → ℕ → String
verification_command_item_id message_hash index =
    append "coordinator-command/" (append message_hash (append "/" (decimal index)))

module _ (st : Storage) where
  -- The command that is claimed.
  unfoldable pub started_row : ℕ → String → String → ℕ → String → String → ExecutionRow
  started_row run_id message_hash turn_id index command cwd = record {
    run_id = run_id;
    message_hash = message_hash;
    turn_id = turn_id;
    item_id = verification_command_item_id message_hash index;
    command_index = index;
    command = command;
    cwd = cwd;
    status = Execution.started;
    exit_code = none;
    stdout = none;
    stderr = none;
  }

  unfoldable pub is_same_claim : String → String → ℕ → String → String → ExecutionRow → Bool
  is_same_claim message_hash turn_id index command cwd row =
      row.message_hash == message_hash
      && row.turn_id == turn_id
      && row.item_id == verification_command_item_id message_hash index
      && row.command_index == index
      && row.command == command
      && row.cwd == cwd

  unfoldable pub insert_claim :
      ExecutionRow → Database st.Text → Txn st.Text VerificationCommandClaim
  insert_claim row db = do
    guard StoreError.database
        (not (any (is_command row.run_id row.message_hash row.command_index) db.executions))
    guard StoreError.database (not (any (is_item row.run_id row.item_id) db.executions))
    ok (VerificationCommandClaim.execute row, record db { executions = row ∷ db.executions })

  unfoldable pub begin_txn :
      ℕ
      → String
      → String
      → ℕ
      → String
      → PathBuf
      → Database st.Text
      → Txn st.Text VerificationCommandClaim
  begin_txn run_id message_hash turn_id index command path db = do
    cwd ← ok_or (st.to_str path) StoreError.incompatible_state
    ensure_run_exists run_id db
    rows ← read_rows (select (is_claimed_by run_id message_hash turn_id index) db.executions)
    elim rows [
      | [] ↦ insert_claim (started_row run_id message_hash turn_id index command cwd) db
      | row ∷ [] ↦ do
        guard StoreError.incompatible_state
            (is_same_claim message_hash turn_id index command cwd row)
        claim ← claim_of row
        ok (claim, db)
      | row ∷ row' ∷ rest ↦ err StoreError.incompatible_state
    ]

  unfoldable pub begin_verification_command :
      ℕ
      → String
      → String
      → ℕ
      → String
      → PathBuf
      → Database st.Text
      → Result StoreError VerificationCommandClaim × Database st.Text
  unfolding begin_txn
  begin_verification_command run_id message_hash turn_id index command path db =
      commit db (begin_txn run_id message_hash turn_id index command path db)

  unfoldable pub complete_txn :
      ℕ → String → ℕ → ℤ → String → String → Database st.Text → Txn st.Text ExecutionRow
  complete_txn run_id message_hash index exit_code stdout stderr db = do
    ensure_run_exists run_id db
    row ←
        ok_or (find (is_command run_id message_hash index) db.executions)
          StoreError.incompatible_state
    read ← read_row row
    elim read.status [
      | Execution.started ↦ do
        guard StoreError.incompatible_state
            (count_of (is_started run_id message_hash index) db.executions == 1)
        ok (
          complete_row exit_code stdout stderr read,
          record db {
            executions =
                update (is_started run_id message_hash index) (complete_row exit_code stdout stderr)
                  db.executions;
          },
        )
      | Execution.completed ↦
          if has_output exit_code stdout stderr read
          then ok (read, db)
          else err StoreError.incompatible_state
    ]

  unfoldable pub complete_verification_command :
      ℕ
      → String
      → ℕ
      → ℤ
      → String
      → String
      → Database st.Text
      → Result StoreError ExecutionRow × Database st.Text
  unfolding complete_txn
  complete_verification_command run_id message_hash index exit_code stdout stderr db =
      commit db (complete_txn run_id message_hash index exit_code stdout stderr db)
