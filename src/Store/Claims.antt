-- ===== src/Store/Claims.antt =====
-- crates/daemon/src/store.rs: what a claim of a verification command reads and writes.
use worktree_merge_consensus.Prelude.{
  ℕ, String, true, false, List, [], ◌∷◌, is_nil, ◌≡◌, ◌⊎◌, refl, arith, inl, inr, Option-cases,
  nat_eq, string_eq, eqb_refl, String-discrete,
}
use native.Mathlib.Decide.{ℕ_discrete}
use worktree_merge_consensus.Prelude.Results.{ok, Result-cases}
use worktree_merge_consensus.Prelude.Tables.{select}
use worktree_merge_consensus.State.Defs.{ℤ, PathBuf}
use worktree_merge_consensus.Store.Defs.{Storage, ExecutionRow, Database}
use worktree_merge_consensus.Store.Verification.{
  VerificationCommandClaim, is_command, is_claimed_by, complete_row, read_row, read_rows, claim_of,
  started_row, insert_claim, begin_txn,
}

pub is_command-claimed :
    (run_id : ℕ) (hash turn_id : String) (index : ℕ) (row : ExecutionRow)
    → is_command run_id hash index row ≡ true
    → is_claimed_by run_id hash turn_id index row ≡ true
unfolding is_command is_claimed_by
is_command-claimed run_id hash turn_id index row h = ground arith

pub is_command-complete_row :
    (run_id : ℕ) (hash : String) (index : ℕ) (exit_code : ℤ) (stdout stderr : String)
    (row : ExecutionRow)
    → is_command run_id hash index (complete_row exit_code stdout stderr row)
      ≡ is_command run_id hash index row
unfolding is_command complete_row
is_command-complete_row run_id hash index exit_code stdout stderr row = refl

pub read_rows-nil : (rows : List ExecutionRow) → is_nil rows ≡ false → (read_rows rows ≡ ok [] → ⊥)
unfolding read_rows
read_rows-nil [] h e = ground arith
read_rows-nil (row ∷ rows) h e = elim (Result-cases (read_row row)) [
  | inr (f, q) ↦ ground arith
  | inl (r, q) ↦ elim (Result-cases (read_rows rows)) [
    | inr (f, p) ↦ ground arith
    | inl (rs, p) ↦ ground arith
  ]
]

module _ (st : Storage) where
  pub insert_claim-IsClaimed :
      (row : ExecutionRow) (claim : VerificationCommandClaim) (db db' : Database st.Text)
      → insert_claim st row db ≡ ok (claim, db')
      → db'.executions ≡ row ∷ db.executions
  unfolding insert_claim
  insert_claim-IsClaimed row claim db db' h = ground arith

  -- A claim that lets a command run finds no row of it, and puts one.
  pub begin_txn-execute :
      (run_id : ℕ) (hash turn_id : String) (index : ℕ) (command : String) (path : PathBuf)
      (row : ExecutionRow) (db db' : Database st.Text)
      → begin_txn st run_id hash turn_id index command path db
        ≡ ok (VerificationCommandClaim.execute row, db')
      → (read_rows (select (is_claimed_by run_id hash turn_id index) db.executions) ≡ ok [])
        × ((cwd : String) × (db'.executions
              ≡ started_row st run_id hash turn_id index command cwd ∷ db.executions))
  unfolding begin_txn
  begin_txn-execute run_id hash turn_id index command path row db db' h =
      elim (Option-cases (st.to_str path)) [
        | inl e ↦ ground arith
        | inr (cwd, e) ↦
            elim (Result-cases
              (read_rows (select (is_claimed_by run_id hash turn_id index) db.executions))) [
                | inr (f, q) ↦ ground arith
                | inl ([], q) ↦ (
                  q,
                  (
                    cwd,
                    insert_claim-IsClaimed (started_row st run_id hash turn_id index command cwd)
                        (VerificationCommandClaim.execute row) db db' (ground arith),
                  ),
                )
                | inl (r ∷ [], q) ↦ unfold claim_of in ground arith
                | inl (r ∷ r' ∷ rs, q) ↦ ground arith
              ]
      ]

  pub started-IsCommand :
      (run_id : ℕ) (hash turn_id : String) (index : ℕ) (command cwd : String)
      → is_command run_id hash index (started_row st run_id hash turn_id index command cwd) ≡ true
  unfolding is_command started_row
  started-IsCommand run_id hash turn_id index command cwd =
      ground (
        arith,
        eqb_refl ℕ_discrete run_id,
        eqb_refl String-discrete hash,
        eqb_refl ℕ_discrete index,
      )

  pub begin_txn-reuse :
      (run_id : ℕ) (hash turn_id : String) (index : ℕ) (command : String) (path : PathBuf)
      (row : ExecutionRow) (db db' : Database st.Text)
      → begin_txn st run_id hash turn_id index command path db
        ≡ ok (VerificationCommandClaim.reuse row, db')
      → db'.executions ≡ db.executions
  unfolding begin_txn
  begin_txn-reuse run_id hash turn_id index command path row db db' h =
      elim (Option-cases (st.to_str path)) [
        | inl e ↦ ground arith
        | inr (cwd, e) ↦
            elim (Result-cases
              (read_rows (select (is_claimed_by run_id hash turn_id index) db.executions))) [
                | inr (f, q) ↦ ground arith
                | inl ([], q) ↦ unfold insert_claim in ground arith
                | inl (r ∷ [], q) ↦ unfold claim_of in ground arith
                | inl (r ∷ r' ∷ rs, q) ↦ ground arith
              ]
      ]

  -- What a claim does to the table of the commands.
  pub begin-executions :
      (run_id : ℕ) (hash turn_id : String) (index : ℕ) (command : String) (path : PathBuf)
      (db db' : Database st.Text) (claim : VerificationCommandClaim)
      → begin_txn st run_id hash turn_id index command path db ≡ ok (claim, db')
      → (db'.executions ≡ db.executions)
        ⊎ ((row : ExecutionRow) × (db'.executions ≡ row ∷ db.executions))
  begin-executions run_id hash turn_id index command path db db'
        (VerificationCommandClaim.execute row) h =
      let (_, (cwd, e)) = begin_txn-execute run_id hash turn_id index command path row db db' h in
      inr (started_row st run_id hash turn_id index command cwd, e)
  begin-executions run_id hash turn_id index command path db db'
        (VerificationCommandClaim.reuse row) h =
      inl (begin_txn-reuse run_id hash turn_id index command path row db db' h)
