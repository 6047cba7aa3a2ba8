-- ===== src/Store/StaleItems.antt =====
-- crates/daemon/src/store.rs: a reactivation deletes the items of the turn that it names, and of no other.
use worktree_merge_consensus.Prelude.{
  ℕ, String, Bool, true, false, not, ◌&&◌, ◌==◌, ap, Option, none, some, List, [], ◌∷◌, option_eq,
  string_eq, ◌≡◌, refl, ◌∙◌, arith, inl, inr, Bool-cases, nat_eq, eqb_sound, String-discrete,
}
use native.Mathlib.Decide.{ℕ_discrete}
use worktree_merge_consensus.Prelude.Results.{Result, ok, Result-cases}
use worktree_merge_consensus.Prelude.Tables.{find, delete}
use worktree_merge_consensus.Store.Defs.{Storage, StoreError, lifecycle_eq, ItemRow, Database}
use worktree_merge_consensus.Store.TurnEvents.{is_item_of}
use worktree_merge_consensus.State.Defs.{RunState}
use worktree_merge_consensus.Store.Runs.{update_run_row, updated, insert_run_event}
use worktree_merge_consensus.Store.Reactivation.{
  lock_taken, Reactivation, delete_stale, is_stale_item, reactivate_txn, reactivate,
}
use worktree_merge_consensus.Store.Reactivation.Written.{
  reactivate_txn-ok, archive_attempt-keeps, with_transition-keeps,
}

module _ (id : ℕ) (turn_id item_id : String) (new : ItemRow) where
  pub is_item_of-keys :
      is_item_of id turn_id item_id new ≡ true
      → (new.turn_record_id ≡ id) × (new.turn_id ≡ turn_id) × (new.item_id ≡ item_id)
  unfolding is_item_of
  is_item_of-keys h = (
    ground (arith, eqb_sound ℕ_discrete new.turn_record_id id),
    ground (arith, eqb_sound String-discrete new.turn_id turn_id),
    ground (arith, eqb_sound String-discrete new.item_id item_id),
  )

-- The turn is not the one whose events are deleted.
abbrev pub is_spared : ℕ → String → Option (ℕ × String) → Bool
is_spared id turn_id none = true
is_spared id turn_id (some (stale_id, stale_turn)) = not (id == stale_id && turn_id == stale_turn)

is_stale-other :
    (id stale_id : ℕ) (turn_id stale_turn item_id : String) (row : ItemRow)
    → not (id == stale_id && turn_id == stale_turn) ≡ true
    → is_item_of id turn_id item_id row ≡ true
    → is_stale_item stale_id stale_turn row ≡ false
is_stale-other id stale_id turn_id stale_turn item_id row spared own =
    let (same_id, same_turn, _) = is_item_of-keys id turn_id item_id row own in
    rw same_id (rw same_turn (ground arith))

find-delete :
    (p q : ItemRow → Bool) (rows : List ItemRow)
    → ((row : ItemRow) → q row ≡ true → p row ≡ false)
    → find q (delete p rows) ≡ find q rows
unfolding find delete
find-delete p q [] apart = refl
find-delete p q (row ∷ rows) apart = elim (Bool-cases (q row)) [
  | inl own ↦ rw (apart row own) (rw own refl)
  | inr other ↦ ground (arith, find-delete p q rows apart)
]

module _ (st : Storage) (id : ℕ) (turn_id item_id : String) where
  delete_stale-find :
      (stale : Option (ℕ × String)) (db cleared : Database st.Text)
      → is_spared id turn_id stale ≡ true
      → delete_stale stale db ≡ ok cleared
      → find (is_item_of id turn_id item_id) cleared.turn_event_items
        ≡ find (is_item_of id turn_id item_id) db.turn_event_items
  unfolding delete_stale
  delete_stale-find none db cleared spared h = ground arith
  delete_stale-find (some (stale_id, stale_turn)) db cleared spared h = ground (
    arith,
    find-delete (is_stale_item stale_id stale_turn) (is_item_of id turn_id item_id)
        db.turn_event_items
        (λ row. is_stale-other id stale_id turn_id stale_turn item_id row spared),
  )

  update-items :
      (now run_id : ℕ) (s : RunState) (db db' : Database st.Text)
      → update_run_row st now run_id s db ≡ ok (tt, db')
      → db'.turn_event_items ≡ db.turn_event_items
  unfolding update_run_row updated insert_run_event
  update-items now run_id s db db' h = ground arith

  pub reactivate-find :
      (now : ℕ) (r : Reactivation) (admitted : Result StoreError (Unit {0})) (db : Database st.Text)
      → is_spared id turn_id r.stale ≡ true
      → find (is_item_of id turn_id item_id) (reactivate st now r admitted db).1.turn_event_items
        ≡ find (is_item_of id turn_id item_id) db.turn_event_items
  unfolding reactivate
  reactivate-find now r admitted db spared =
      elim (Result-cases (reactivate_txn st now r admitted db)) [
        | inr (e, q) ↦ rw q refl
        | inl ((tt, db'), q) ↦
            let (free, cleared, archived, saved, deleted, a, u, e) =
              reactivate_txn-ok st now r admitted db db' q in
            let items =
              λ (d : Database st.Text). find (is_item_of id turn_id item_id) d.turn_event_items in
            let (_, _, same1) =
              archive_attempt-keeps r.blocked.facts.run_id r.attempt cleared archived a in
            let same2 = update-items now r.blocked.facts.run_id r.resumed archived saved u in
            let (_, _, same3) = with_transition-keeps r saved in
            rw q (
              ap items e
              ∙ ap (λ rows. find (is_item_of id turn_id item_id) rows) (same3 ∙ same2 ∙ same1)
              ∙ delete_stale-find r.stale (record db { locks = lock_taken st r ∷ db.locks }) cleared
                  spared deleted)
      ]
