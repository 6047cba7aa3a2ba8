-- ===== src/Store/FinalItems.antt =====
-- crates/daemon/src/store.rs: the items of a turn, of which a completed one is final.
use worktree_merge_consensus.Prelude.{
  ℕ, String, Bool, true, false, some, List, [], ◌∷◌, option_eq, string_eq, ◌≡◌, refl, sym, ◌∙◌,
  arith, inl, inr, Bool-cases, Option-cases, nat_eq,
}
use worktree_merge_consensus.Prelude.Results.{ok, Result-cases}
use worktree_merge_consensus.Prelude.Tables.{find, find-update_self, find-update_other}
use worktree_merge_consensus.Json.{Value}
use worktree_merge_consensus.Store.Defs.{Storage, lifecycle_eq, ItemRow, Database}
use worktree_merge_consensus.Store.TurnEvents.{
  is_item_of, next_item, put_item, record_turn_item_event, item_event_txn, lifecycle_of,
  solid_field, active_turn_record_id,
}
use worktree_merge_consensus.Prelude.Searches.{All}
use worktree_merge_consensus.Store.Calls.{Call, call, run_calls}
use worktree_merge_consensus.Store.Calls.Call.{recording_item, reactivating}
use worktree_merge_consensus.Store.Frames.{call-KeepsBy}
use worktree_merge_consensus.Store.Evidence.{is_completed}
use worktree_merge_consensus.Store.StaleItems.{is_item_of-keys, is_spared, reactivate-find}

next_item-completed :
    (old new row : ItemRow) → is_completed old ≡ true → next_item old new ≡ ok row → row ≡ old
unfolding next_item
next_item-completed old new row done h = ground arith

find-holds : {A : Type 0} (p : A → Bool) (xs : List A) (x : A) → find p xs ≡ some x → p x ≡ true
unfolding find
find-holds p [] x h = ground arith
find-holds p (y ∷ ys) x h = ground (arith, find-holds p ys x)

next_item-keys :
    (id : ℕ) (turn_id item_id : String) (old new row : ItemRow)
    → next_item old new ≡ ok row
    → is_item_of id turn_id item_id row ≡ is_item_of id turn_id item_id old
unfolding next_item is_item_of
next_item-keys id turn_id item_id old new row h = ground arith

is_item_of-other :
    (id : ℕ) (turn_id item_id : String) (new row : ItemRow)
    → is_item_of id turn_id item_id new ≡ false
    → is_item_of new.turn_record_id new.turn_id new.item_id row ≡ true
    → is_item_of id turn_id item_id row ≡ false
is_item_of-other id turn_id item_id new row other own =
    let (same_id, same_turn, same_item) =
      is_item_of-keys new.turn_record_id new.turn_id new.item_id row own in
    unfold is_item_of in ground arith

-- An event of an item that is completed leaves it.
put_item-own :
    {Text : Type 0} (held new : ItemRow) (db db' : Database Text)
    → is_completed held ≡ true
    → find (is_item_of new.turn_record_id new.turn_id new.item_id) db.turn_event_items ≡ some held
    → put_item new db ≡ ok (tt, db')
    → find (is_item_of new.turn_record_id new.turn_id new.item_id) db'.turn_event_items ≡ some held
unfolding put_item
put_item-own held new db db' done found h = elim (Result-cases (next_item held new)) [
  | inr (e, q) ↦ ground arith
  | inl (row, q) ↦
      let same = next_item-completed held new row done q in
      let own : is_item_of new.turn_record_id new.turn_id new.item_id row ≡ true = rw same (
        find-holds (is_item_of new.turn_record_id new.turn_id new.item_id) db.turn_event_items held
          found) in
      let updated =
        find-update_self (is_item_of new.turn_record_id new.turn_id new.item_id) (λ _. row) row
          db.turn_event_items (λ _ _. refl) own held found in
      ground arith
]

module _ {Text : Type 0} (id : ℕ) (turn_id item_id : String) (held : ItemRow) where
  abbrev Holds : Database Text → Type 0
  Holds db = find (is_item_of id turn_id item_id) db.turn_event_items ≡ some held

  put_item-same :
      (new : ItemRow) (db db' : Database Text)
      → is_completed held ≡ true
      → Holds db
      → is_item_of id turn_id item_id new ≡ true
      → put_item new db ≡ ok (tt, db')
      → Holds db'
  put_item-same new db db' done found same h =
      let (a, b, c) = is_item_of-keys id turn_id item_id new same in
      rw (sym a)
        (rw (sym b) (rw (sym c) (put_item-own held new db db' done (rw a (rw b (rw c found))) h)))

  put_item-other :
      (new : ItemRow) (db db' : Database Text)
      → Holds db
      → is_item_of id turn_id item_id new ≡ false
      → put_item new db ≡ ok (tt, db')
      → Holds db'
  unfolding put_item
  put_item-other new db db' found other h =
      let own = is_item_of new.turn_record_id new.turn_id new.item_id in
      elim (Option-cases (find own db.turn_event_items)) [
        | inl fresh ↦ unfold find in ground arith
        | inr (old, there) ↦ elim (Result-cases (next_item old new)) [
          | inr (e, q) ↦ ground arith
          | inl (row, q) ↦
              let apart = is_item_of-other id turn_id item_id new in
              let kept =
                find-update_other own (is_item_of id turn_id item_id) (λ _. row) db.turn_event_items
                  (λ x. apart x other)
                  (λ _ _.
                    next_item-keys id turn_id item_id old new row q
                    ∙ apart old other (find-holds own db.turn_event_items old there)) in
              ground arith
        ]
      ]

  put_item-Holds :
      (new : ItemRow) (db db' : Database Text)
      → is_completed held ≡ true
      → Holds db
      → put_item new db ≡ ok (tt, db')
      → Holds db'
  put_item-Holds new db db' done found h = elim (Bool-cases (is_item_of id turn_id item_id new)) [
    | inl same ↦ put_item-same new db db' done found same h
    | inr other ↦ put_item-other new db db' found other h
  ]

  -- An event that is recorded puts one item.
  item_event-put_item :
      (run_id : ℕ) (thread_id turn_id' method : String) (item : Value) (db db' : Database Text)
      → item_event_txn run_id thread_id turn_id' method item db ≡ ok (tt, db')
      → (new : ItemRow) × (put_item new db ≡ ok (tt, db'))
  unfolding item_event_txn
  item_event-put_item run_id thread_id turn_id' method item db db' h =
      elim (Option-cases (lifecycle_of method)) [
        | inl e ↦ ground arith
        | inr (lifecycle, e) ↦ elim (Option-cases (solid_field item "id")) [
          | inl e' ↦ ground arith
          | inr (item_id', e') ↦ elim (Option-cases (solid_field item "type")) [
            | inl e'' ↦ ground arith
            | inr (item_type, e'') ↦
                elim (Result-cases (active_turn_record_id run_id thread_id turn_id' db)) [
                  | inr (f, q) ↦ ground arith
                  | inl (record_id, q) ↦ (
                    record {
                      turn_record_id = record_id;
                      run_id = run_id;
                      thread_id = thread_id;
                      turn_id = turn_id';
                      item_id = item_id';
                      item_type = item_type;
                      lifecycle_state = lifecycle;
                      item_json = item;
                    },
                    ground arith,
                  )
                ]
          ]
        ]
      ]

  recording-Holds :
      (run_id : ℕ) (thread_id turn_id' method : String) (item : Value) (db : Database Text)
      → is_completed held ≡ true
      → Holds db
      → Holds (record_turn_item_event run_id thread_id turn_id' method item db).1
  unfolding record_turn_item_event
  recording-Holds run_id thread_id turn_id' method item db done found =
      elim (Result-cases (item_event_txn run_id thread_id turn_id' method item db)) [
        | inr (e, q) ↦ rw q found
        | inl ((tt, db'), q) ↦
            let (new, put) = item_event-put_item run_id thread_id turn_id' method item db db' q in
            rw q (put_item-Holds new db db' done found put)
      ]

-- The call deletes no event of the turn.
abbrev pub spares : ℕ → String → Call → Bool
spares id turn_id (reactivating now r admitted) = is_spared id turn_id r.stale
spares id turn_id _ = true

module _ (st : Storage) (id : ℕ) (turn_id item_id : String) (held : ItemRow) where
  call-Holds :
      (c : Call) (db : Database st.Text)
      → spares id turn_id c ≡ true
      → is_completed held ≡ true
      → find (is_item_of id turn_id item_id) db.turn_event_items ≡ some held
      → find (is_item_of id turn_id item_id) (call st c db).1.turn_event_items ≡ some held
  call-Holds (recording_item run_id thread_id turn_id' method item) db spared done found =
      unfold call in
      recording-Holds id turn_id item_id held run_id thread_id turn_id' method item db done found
  call-Holds (reactivating now r admitted) db spared done found =
      unfold call in reactivate-find st id turn_id item_id now r admitted db spared ∙ found
  call-Holds c db spared done found = rw ((call-KeepsBy st db c).3 refl) found

  -- An item of a turn that is recorded as completed stays in its row as it is, after any calls of
  -- `Call` of which none is the recovery that deletes the events of that turn.
  pub run_calls-turn_event_items :
      (cs : List Call) (db : Database st.Text)
      → All (λ c. spares id turn_id c ≡ true) cs
      → is_completed held ≡ true
      → find (is_item_of id turn_id item_id) db.turn_event_items ≡ some held
      → find (is_item_of id turn_id item_id) (run_calls st cs db).turn_event_items ≡ some held
  unfolding run_calls
  run_calls-turn_event_items [] db spared done found = found
  run_calls-turn_event_items (c ∷ cs) db (here, there) done found =
      run_calls-turn_event_items cs (call st c db).1 there done (call-Holds c db here done found)
