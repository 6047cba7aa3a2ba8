-- ===== src/Store/Locks.antt =====
-- crates/daemon/src/store.rs: a repository, a worktree and a run have one lock at most.
use worktree_merge_consensus.Prelude.{
  ℕ, Bool, false, String, List, [], ◌∷◌, any, ◌≡◌, ◌≢◌, refl, sym, ◌∙◌, arith, subst, inl, inr,
  Bool-cases, ◌==◌, nat_eq, string_eq, eqb_complete, String-discrete,
}
use native.Mathlib.Decide.{ℕ_discrete}
use worktree_merge_consensus.Prelude.Searches.{All}
use worktree_merge_consensus.Prelude.Results.{Result, ok, Result-cases}
use worktree_merge_consensus.Prelude.Tables.{delete}
use worktree_merge_consensus.State.Defs.{RunState}
use worktree_merge_consensus.Store.Defs.{Storage, StoreError, LockRow, Database}
use worktree_merge_consensus.Store.Codec.{is_terminal}
use worktree_merge_consensus.Store.Runs.{
  is_locked, lock_of, release_lock, release_if_terminal, inserted, insert_run, insert_run_event,
  save_state, update_run_row,
}
use worktree_merge_consensus.Store.Turns.{
  accept_response_and_advance, accept_turn, insert_transition,
}
use worktree_merge_consensus.Store.Runs.Saved.{
  insert_run-ok, insert_run-err, save_state-ok, save_state-err,
}
use worktree_merge_consensus.Store.Turns.Accepted.{update-others, accept-ok, accept-err}
use worktree_merge_consensus.Store.Reactivation.{lock_taken, Reactivation, reactivate}
use worktree_merge_consensus.Store.Reactivation.Written.{reactivate-err, reactivate-locks}
use worktree_merge_consensus.Store.Calls.{Call, call, run_calls}
use worktree_merge_consensus.Store.Calls.Call.{
  inserting, saving, accepting, releasing, reactivating,
}
use worktree_merge_consensus.Store.Frames.{call-KeepsBy}

-- Two locks of which none stands in the way of the other.
abbrev pub Apart : LockRow → LockRow → Type 0
Apart a b =
    (b.repository_id ≢ a.repository_id)
    × (b.run_id ≢ a.run_id)
    × (b.primary_worktree ≢ a.primary_worktree)

-- No two locks share a repository, a run or a worktree.
abbrev pub IsExclusive : List LockRow → Type 0
IsExclusive [] = Unit
IsExclusive (lock ∷ locks) = All (Apart lock) locks × IsExclusive locks

is_locked-Apart :
    (lock : LockRow) (locks : List LockRow) → is_locked lock locks ≡ false → All (Apart lock) locks
unfolding is_locked any
is_locked-Apart lock [] h = tt
is_locked-Apart lock (x ∷ xs) h = (
  (
    λ e. ground (arith, eqb_complete String-discrete x.repository_id lock.repository_id e),
    λ e. ground (arith, eqb_complete ℕ_discrete x.run_id lock.run_id e),
    λ e. ground (arith, eqb_complete String-discrete x.primary_worktree lock.primary_worktree e),
  ),
  is_locked-Apart lock xs (ground arith),
)

All-delete :
    (P : LockRow → Type 0) (p : LockRow → Bool) (locks : List LockRow)
    → All P locks
    → All P (delete p locks)
unfolding delete
All-delete P p [] h = h
All-delete P p (x ∷ xs) (here, there) = elim (Bool-cases (p x)) [
  | inl gone ↦ rw gone (All-delete P p xs there)
  | inr kept ↦ rw kept (here, All-delete P p xs there)
]

delete-IsExclusive :
    (p : LockRow → Bool) (locks : List LockRow) → IsExclusive locks → IsExclusive (delete p locks)
unfolding delete
delete-IsExclusive p [] h = h
delete-IsExclusive p (x ∷ xs) (free, rest) = elim (Bool-cases (p x)) [
  | inl gone ↦ rw gone (delete-IsExclusive p xs rest)
  | inr kept ↦ rw kept (All-delete (Apart x) p xs free, delete-IsExclusive p xs rest)
]

released-IsExclusive :
    {Text : Type 0} (s : RunState) (db : Database Text)
    → IsExclusive db.locks
    → IsExclusive (release_if_terminal s db).locks
unfolding release_if_terminal release_lock
released-IsExclusive s db h = elim (Bool-cases (is_terminal s.status)) [
  | inl e ↦ rw e (delete-IsExclusive (λ lock. lock.run_id == s.facts.run_id) db.locks h)
  | inr e ↦ rw e h
]

module _ (st : Storage) (db : Database st.Text) (exclusive : IsExclusive db.locks) where
  inserted-IsExclusive :
      (now : ℕ) (s : RunState) (text : st.Text)
      → is_locked (lock_of st s) db.locks ≡ false
      → IsExclusive (inserted st now s text db).locks
  unfolding inserted insert_run_event
  inserted-IsExclusive now s text free = (is_locked-Apart (lock_of st s) db.locks free, exclusive)

  insert_run-IsExclusive : (now : ℕ) (s : RunState) → IsExclusive (insert_run st now s db).1.locks
  insert_run-IsExclusive now s = elim (Result-cases (insert_run st now s db).0) [
    | inr (e, h) ↦
        subst (λ (d : Database st.Text). IsExclusive d.locks) (sym (insert_run-err st now s db e h))
          exclusive
    | inl (tt, h) ↦
        let (text, left, free) = insert_run-ok st now s db h in
        subst (λ (d : Database st.Text). IsExclusive d.locks) (sym left)
          (inserted-IsExclusive now s text free)
  ]

  -- The locks after an update of a row, when the run has come to its end.
  after_update :
      (now run_id : ℕ) (s : RunState) (db0 db1 db' : Database st.Text)
      → db0.locks ≡ db.locks
      → update_run_row st now run_id s db0 ≡ ok (tt, db1)
      → db'.locks ≡ db1.locks
      → IsExclusive (release_if_terminal s db').locks
  after_update now run_id s db0 db1 db' same update e =
      let (_, locks, _) = update-others st now run_id s db0 db1 update in
      released-IsExclusive s db' (subst IsExclusive (sym (e ∙ locks ∙ same)) exclusive)

  save_state-IsExclusive : (now : ℕ) (s : RunState) → IsExclusive (save_state st now s db).1.locks
  save_state-IsExclusive now s = elim (Result-cases (save_state st now s db).0) [
    | inr (e, h) ↦
        subst (λ (d : Database st.Text). IsExclusive d.locks) (sym (save_state-err st now s db e h))
          exclusive
    | inl (tt, h) ↦
        let (db1, update, left) = save_state-ok st now s db h in
        subst (λ (d : Database st.Text). IsExclusive d.locks) (sym left)
          (after_update now s.facts.run_id s db db1 db1 refl update refl)
  ]

  accept-IsExclusive :
      (now run_id : ℕ) (hash : String) (s : RunState)
      → IsExclusive (accept_response_and_advance st now run_id hash s db).1.locks
  unfolding accept_turn insert_transition
  accept-IsExclusive now run_id hash s =
      elim (Result-cases (accept_response_and_advance st now run_id hash s db).0) [
        | inr (e, h) ↦
            subst (λ (d : Database st.Text). IsExclusive d.locks)
              (sym (accept-err st now run_id hash s db e h)) exclusive
        | inl (tt, h) ↦
            let (current, turn, db1, update, left) = accept-ok st now run_id hash s db h in
            subst (λ (d : Database st.Text). IsExclusive d.locks) (sym left)
              (after_update now run_id s (accept_turn turn.id hash db) db1
                (insert_transition run_id current s hash db1) refl update refl)
      ]

  reactivate-IsExclusive :
      (now : ℕ) (r : Reactivation) (admitted : Result StoreError (Unit {0}))
      → IsExclusive (reactivate st now r admitted db).1.locks
  reactivate-IsExclusive now r admitted = elim (Result-cases (reactivate st now r admitted db).0) [
    | inr (e, h) ↦
        subst (λ (d : Database st.Text). IsExclusive d.locks)
          (sym (reactivate-err st now r admitted db e h)) exclusive
    | inl (tt, h) ↦
        let (free, locks) = reactivate-locks st now r admitted db h in
        subst IsExclusive (sym locks) (is_locked-Apart (lock_taken st r) db.locks free, exclusive)
  ]

  call-IsExclusive : (c : Call) → IsExclusive (call st c db).1.locks
  call-IsExclusive (inserting now s) = unfold call in insert_run-IsExclusive now s
  call-IsExclusive (saving now s) = unfold call in save_state-IsExclusive now s
  call-IsExclusive (accepting now run_id hash s) =
      unfold call in accept-IsExclusive now run_id hash s
  call-IsExclusive (releasing run_id) =
      unfold call release_lock in
      delete-IsExclusive (λ lock. lock.run_id == run_id) db.locks exclusive
  call-IsExclusive (reactivating now r admitted) =
      unfold call in reactivate-IsExclusive now r admitted
  call-IsExclusive c = subst IsExclusive (sym (((call-KeepsBy st db c).0 refl).1)) exclusive

-- After any calls of `Call`, no two locks share a repository, a run or a worktree, if none did before.
pub run_calls-IsExclusive :
    (st : Storage) (cs : List Call) (db : Database st.Text)
    → IsExclusive db.locks
    → IsExclusive (run_calls st cs db).locks
unfolding run_calls
run_calls-IsExclusive st [] db h = h
run_calls-IsExclusive st (c ∷ cs) db h =
    run_calls-IsExclusive st cs (call st c db).1 (call-IsExclusive st db h c)
