-- ===== src/Store/Reactivation/Written.antt =====
-- crates/daemon/src/store.rs: the steps of a reactivation that succeeds.
use worktree_merge_consensus.Prelude.{
  ℕ, false, String, Option, none, some, ◌∷◌, ◌≡◌, ◌∙◌, ap, arith, inl, inr, Bool-cases,
  if◌then◌else◌, ◌==◌, nat_eq,
}
use worktree_merge_consensus.Prelude.Results.{Result, ok, err, Result-cases}
use worktree_merge_consensus.State.Defs.{RunState}
use worktree_merge_consensus.Store.Defs.{Storage, StoreError, Database}
use worktree_merge_consensus.Store.Txn.{commit-ok, commit-err}
use worktree_merge_consensus.Store.Codec.{read_back}
use worktree_merge_consensus.Store.Runs.{is_locked, update_run_row, load_run}
use worktree_merge_consensus.Store.Runs.View.{load_run-runs}
use worktree_merge_consensus.Store.Runs.Saved.{load_run-update}
use worktree_merge_consensus.Store.Turns.Accepted.{update-others}
use worktree_merge_consensus.Store.Archive.{archive_and_reset_turn}
use worktree_merge_consensus.Store.Reactivation.{
  lock_taken, Attempt, Reactivation, delete_stale, archive_attempt, with_transition, reactivate_txn,
  reactivate,
}

module _ {Text : Type 0} where
  delete_stale-keeps :
      (stale : Option (ℕ × String)) (db db' : Database Text)
      → delete_stale stale db ≡ ok db'
      → (db'.runs ≡ db.runs) × (db'.locks ≡ db.locks)
  unfolding delete_stale
  delete_stale-keeps none db db' h = ground arith
  delete_stale-keeps (some (id, turn_id)) db db' h = ground arith

  pub archive_attempt-keeps :
      (run_id : ℕ) (attempt : Option Attempt) (db db' : Database Text)
      → archive_attempt run_id attempt db ≡ ok (tt, db')
      → (db'.runs ≡ db.runs) × (db'.locks ≡ db.locks) × (db'.turn_event_items ≡ db.turn_event_items)
  unfolding archive_attempt archive_and_reset_turn
  archive_attempt-keeps run_id none db db' h = ground arith
  archive_attempt-keeps run_id (some attempt) db db' h = ground arith

  pub with_transition-keeps :
      (r : Reactivation) (db : Database Text)
      → ((with_transition r db).runs ≡ db.runs)
        × ((with_transition r db).locks ≡ db.locks)
        × ((with_transition r db).turn_event_items ≡ db.turn_event_items)
  unfolding with_transition
  with_transition-keeps r db = ground arith

module _ (st : Storage) where
  -- The lock was free, the stale events go, the row is updated, and the rest is as it was.
  pub reactivate_txn-ok :
      (now : ℕ) (r : Reactivation) (admitted : Result StoreError (Unit {0}))
      (db db' : Database st.Text)
      → reactivate_txn st now r admitted db ≡ ok (tt, db')
      → (is_locked (lock_taken st r) db.locks ≡ false)
        × (cleared : Database st.Text) × (archived : Database st.Text) × (saved : Database st.Text)
        × (delete_stale r.stale (record db { locks = lock_taken st r ∷ db.locks }) ≡ ok cleared)
        × (archive_attempt r.blocked.facts.run_id r.attempt cleared ≡ ok (tt, archived))
        × (update_run_row st now r.blocked.facts.run_id r.resumed archived ≡ ok (tt, saved))
        × (db' ≡ with_transition r saved)
  unfolding reactivate_txn
  reactivate_txn-ok now r (err e) db db' h = ground arith
  reactivate_txn-ok now r (ok tt) db db' h =
      elim (Bool-cases (is_locked (lock_taken st r) db.locks)) [
        | inl held ↦ ground arith
        | inr free ↦
            elim (Result-cases
              (delete_stale r.stale (record db { locks = lock_taken st r ∷ db.locks }))) [
                | inr (e, q) ↦ ground arith
                | inl (cleared, q) ↦
                    elim (Result-cases (archive_attempt r.blocked.facts.run_id r.attempt cleared)) [
                      | inr (e, a) ↦ ground arith
                      | inl ((tt, archived), a) ↦
                          elim (Result-cases
                            (update_run_row st now r.blocked.facts.run_id r.resumed archived)) [
                              | inr (e, u) ↦ ground arith
                              | inl ((tt, saved), u) ↦
                                  (free, cleared, archived, saved, q, a, u, ground arith)
                            ]
                    ]
              ]
      ]

  pub reactivate-err :
      (now : ℕ) (r : Reactivation) (admitted : Result StoreError (Unit {0})) (db : Database st.Text)
      (e : StoreError)
      → (reactivate st now r admitted db).0 ≡ err e
      → (reactivate st now r admitted db).1 ≡ db
  unfolding reactivate
  reactivate-err now r admitted db e h = commit-err db (reactivate_txn st now r admitted db) e h

  -- The lock is the newest, and no other was in its way.
  pub reactivate-locks :
      (now : ℕ) (r : Reactivation) (admitted : Result StoreError (Unit {0})) (db : Database st.Text)
      → (reactivate st now r admitted db).0 ≡ ok tt
      → (is_locked (lock_taken st r) db.locks ≡ false)
        × ((reactivate st now r admitted db).1.locks ≡ lock_taken st r ∷ db.locks)
  unfolding reactivate
  reactivate-locks now r admitted db h =
      let (db', run, left) = commit-ok db (reactivate_txn st now r admitted db) tt h in
      let (free, cleared, archived, saved, q, a, u, e) =
        reactivate_txn-ok now r admitted db db' run in
      let (_, locks0) =
        delete_stale-keeps r.stale (record db { locks = lock_taken st r ∷ db.locks }) cleared q in
      let (_, locks1, _) =
        archive_attempt-keeps r.blocked.facts.run_id r.attempt cleared archived a in
      let (_, locks2, _) = update-others st now r.blocked.facts.run_id r.resumed archived saved u in
      let (_, locks3, _) = with_transition-keeps r saved in
      (free, ap (λ (d : Database st.Text). d.locks) (left ∙ e) ∙ locks3 ∙ locks2 ∙ locks1 ∙ locks0)

  -- The run is loaded as the text of the resumed state is read, every other run as before.
  pub load_run-reactivate :
      (now : ℕ) (r : Reactivation) (admitted : Result StoreError (Unit {0})) (db : Database st.Text)
      (k : ℕ)
      → (reactivate st now r admitted db).0 ≡ ok tt
      → load_run st k (reactivate st now r admitted db).1
        ≡ (if r.blocked.facts.run_id == k then read_back st r.resumed else load_run st k db)
  unfolding reactivate
  load_run-reactivate now r admitted db k h =
      let (db', run, left) = commit-ok db (reactivate_txn st now r admitted db) tt h in
      let (free, cleared, archived, saved, q, a, u, e) =
        reactivate_txn-ok now r admitted db db' run in
      let (runs0, _) =
        delete_stale-keeps r.stale (record db { locks = lock_taken st r ∷ db.locks }) cleared q in
      let (runs1, _, _) =
        archive_attempt-keeps r.blocked.facts.run_id r.attempt cleared archived a in
      let (runs3, _, _) = with_transition-keeps r saved in
      ap (load_run st k) (left ∙ e)
      ∙ load_run-runs st k saved (with_transition r saved) runs3
      ∙ load_run-update st now r.blocked.facts.run_id r.resumed archived saved k u
      ∙ ap
          (λ (l : Result StoreError (Option RunState)).
            if r.blocked.facts.run_id == k then read_back st r.resumed else l)
          (load_run-runs st k db archived (runs1 ∙ runs0))
