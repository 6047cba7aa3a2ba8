-- ===== src/Store/Txn.antt =====
-- crates/daemon/src/store.rs: a transaction gives a value with the database that it leaves, or an
-- error, and then nothing of what it wrote is kept.
use worktree_merge_consensus.Prelude.{ℕ, Bool, any, ◌==◌, nat_eq, ◌≡◌, refl, arith}
use worktree_merge_consensus.Prelude.Results.{Result, ok, err, guard}
use worktree_merge_consensus.Store.Defs.{StoreError, RunRow, Database}

abbrev pub Txn : Type 0 → Type 0 → Type 0
Txn Text A = Result StoreError (A × Database Text)

-- The result that the caller gets, and the database after the commit or the rollback.
abbrev pub commit :
    {Text A : Type 0} → Database Text → Txn Text A → Result StoreError A × Database Text
commit db (ok (a, db')) = (ok a, db')
commit db (err e) = (err e, db)

unfoldable pub has_run : {Text : Type 0} → ℕ → Database Text → Bool
has_run {Text} run_id db = any (λ (row : RunRow Text). row.run_id == run_id) db.runs

abbrev pub ensure_run_exists : {Text : Type 0} → ℕ → Database Text → Result StoreError (Unit {0})
ensure_run_exists run_id db = guard StoreError.run_not_found (has_run run_id db)

pub commit-ok :
    {Text A : Type 0} (db : Database Text) (m : Txn Text A) (a : A)
    → (commit db m).0 ≡ ok a
    → (db' : Database Text) × (m ≡ ok (a, db')) × ((commit db m).1 ≡ db')
commit-ok db (ok (b, db')) a h = (db', ground arith, refl)
commit-ok db (err e) a h = ground arith

pub commit-err :
    {Text A : Type 0} (db : Database Text) (m : Txn Text A) (e : StoreError)
    → (commit db m).0 ≡ err e
    → (commit db m).1 ≡ db
commit-err db (ok (b, db')) e h = ground arith
commit-err db (err e') e h = refl
