-- ===== src/Store/Turns/Accepted.antt =====
-- crates/daemon/src/store.rs: what the acceptance of a response does to the tables.
use worktree_merge_consensus.Prelude.{
  ℕ, ◌+◌, true, false, ◌&&◌, String, some, any, count_of, ◌≡◌, refl, sym, ◌∙◌, ap, arith, inl, inr,
  Option-cases, ◌==◌, nat_eq, if◌then◌else◌, eqb, eqb_sound, eqb_refl, subst,
}
use native.Mathlib.Decide.{ℕ_discrete}
use worktree_merge_consensus.Prelude.Results.{ok, err, Result-cases}
use worktree_merge_consensus.Prelude.Tables.{update, any-delete, count_of-update}
use worktree_merge_consensus.State.Defs.{RunState}
use worktree_merge_consensus.Store.Defs.{
  Storage, StoreError, Delivery, Delivery-discrete, delivery_eq, TurnRow, Database,
}
use worktree_merge_consensus.Store.Txn.{commit-ok, commit-err}
use worktree_merge_consensus.Store.Codec.{deserialize_state, read_back, is_terminal}
use worktree_merge_consensus.Store.Runs.{
  find_run, loaded, load_run, update_run_row, updated, insert_run_event, release_lock,
  release_if_terminal,
}
use worktree_merge_consensus.Store.Runs.View.{
  load_run-runs, release_if_terminal-runs, update_run_row-ok,
}
use worktree_merge_consensus.Store.Runs.Saved.{load_run-update, set_run}
use worktree_merge_consensus.Store.Turns.{
  is_open, pending_turn, accept_turn, insert_transition, transition_count, accept_response_txn,
  accept_response_and_advance,
}

accepted_not_open :
    (hash : String) (x : TurnRow)
    → is_open (record x { delivery_state = Delivery.accepted; response_hash = some hash }) ≡ false
unfolding is_open eqb Delivery-discrete
accepted_not_open hash x = refl

module _ (st : Storage) where
  -- The steps of an acceptance that succeeds.
  pub accept_response_txn-ok :
      (now run_id : ℕ) (hash : String) (s : RunState) (db db' : Database st.Text)
      → accept_response_txn st now run_id hash s db ≡ ok (tt, db')
      → (current : RunState) × (turn : TurnRow) × (db1 : Database st.Text) × (load_run st run_id db
          ≡ ok (some current))
        × (pending_turn run_id db ≡ some turn)
        × (update_run_row st now run_id s (accept_turn turn.id hash db) ≡ ok (tt, db1))
        × (db' ≡ release_if_terminal s (insert_transition run_id current s hash db1))
        × ((s.facts.run_id == run_id) ≡ true)
        × ((count_of (λ t. t.id == turn.id && is_open t) db.turns == 1) ≡ true)
  unfolding accept_response_txn load_run
  accept_response_txn-ok now run_id hash s db db' h = elim (Option-cases (find_run st run_id db)) [
    | inl e ↦ ground arith
    | inr (row, e) ↦ elim (Result-cases (deserialize_state st row.state_json)) [
      | inr (failure, q) ↦ ground arith
      | inl (current, q) ↦ elim (Option-cases (pending_turn run_id db)) [
        | inl p ↦ ground arith
        | inr (turn, p) ↦
            elim (Result-cases (update_run_row st now run_id s (accept_turn turn.id hash db))) [
              | inr (failure, u) ↦ ground arith
              | inl ((tt, db1), u) ↦
                  (current, turn, db1, ground arith, p, u, ground arith, ground arith, ground arith)
            ]
      ]
    ]
  ]

  pub accept-err :
      (now run_id : ℕ) (hash : String) (s : RunState) (db : Database st.Text) (e : StoreError)
      → (accept_response_and_advance st now run_id hash s db).0 ≡ err e
      → (accept_response_and_advance st now run_id hash s db).1 ≡ db
  unfolding accept_response_and_advance
  accept-err now run_id hash s db e h =
      commit-err db (accept_response_txn st now run_id hash s db) e h

  pub accept-ok :
      (now run_id : ℕ) (hash : String) (s : RunState) (db : Database st.Text)
      → (accept_response_and_advance st now run_id hash s db).0 ≡ ok tt
      → (current : RunState) × (turn : TurnRow) × (db1 : Database st.Text) × (update_run_row st now
            run_id s
            (accept_turn turn.id hash db)
          ≡ ok (tt, db1))
        × ((accept_response_and_advance st now run_id hash s db).1
            ≡ release_if_terminal s (insert_transition run_id current s hash db1))
  unfolding accept_response_and_advance
  accept-ok now run_id hash s db h =
      let (db', run, left) = commit-ok db (accept_response_txn st now run_id hash s db) tt h in
      let (current, turn, db1, _, _, update, e, _, _) =
        accept_response_txn-ok now run_id hash s db db' run in
      (current, turn, db1, update, left ∙ e)

  updated-others :
      (now run_id : ℕ) (previous s : RunState) (text : st.Text) (db : Database st.Text)
      → ((updated st now run_id previous s text db).turns ≡ db.turns)
        × ((updated st now run_id previous s text db).locks ≡ db.locks)
        × ((updated st now run_id previous s text db).transitions ≡ db.transitions)
  unfolding updated insert_run_event
  updated-others now run_id previous s text db = ground arith

  pub update-others :
      (now run_id : ℕ) (s : RunState) (db db' : Database st.Text)
      → update_run_row st now run_id s db ≡ ok (tt, db')
      → (db'.turns ≡ db.turns) × (db'.locks ≡ db.locks) × (db'.transitions ≡ db.transitions)
  update-others now run_id s db db' h =
      let (_, previous, text, _, _, _, e) = update_run_row-ok st now run_id s db db' h in
      subst
        (λ (d : Database st.Text).
          (d.turns ≡ db.turns) × (d.locks ≡ db.locks) × (d.transitions ≡ db.transitions))
        (sym e) (updated-others now run_id previous s text db)

  -- The lock of a run that has come to its end is gone; else the locks are as they were.
  abbrev pub LocksAfter : RunState → Database st.Text → Database st.Text → Type 0
  LocksAfter s db db' =
      (is_terminal s.status ≡ true → any (λ lock. lock.run_id == s.facts.run_id) db'.locks ≡ false)
      × (is_terminal s.status ≡ false → db'.locks ≡ db.locks)

  pub release-LocksAfter :
      (s : RunState) (db db' : Database st.Text)
      → db'.locks ≡ db.locks
      → LocksAfter s db (release_if_terminal s db')
  unfolding release_if_terminal release_lock
  release-LocksAfter s db db' e =
      (λ h. rw h (any-delete (λ lock. lock.run_id == s.facts.run_id) db'.locks), λ h. rw h e)

  released-others :
      (s : RunState) (db : Database st.Text)
      → ((release_if_terminal s db).turns ≡ db.turns)
        × ((release_if_terminal s db).transitions ≡ db.transitions)
  unfolding release_if_terminal release_lock
  released-others s db = ground arith

  fewer_open :
      (id : ℕ) (hash : String) (db : Database st.Text)
      → (count_of (λ t. t.id == id && is_open t) db.turns == 1) ≡ true
      → count_of is_open (accept_turn id hash db).turns + 1 ≡ count_of is_open db.turns
  unfolding accept_turn
  fewer_open id hash db h = omega (
    arith,
    eqb_sound ℕ_discrete (count_of (λ t. t.id == id && is_open t) db.turns) 1 h,
    count_of-update (λ t. t.id == id && is_open t) is_open
        (λ turn. record turn { delivery_state = Delivery.accepted; response_hash = some hash })
        db.turns (λ x e. ground arith) (λ x e. accepted_not_open hash x),
  )

  -- The acceptance of a response, seen from outside.
  abbrev pub Accepts : ℕ → String → RunState → Database st.Text → Database st.Text → Type 0
  Accepts run_id hash s db db' =
      (s.facts.run_id ≡ run_id)
      × ((turn : TurnRow) × (pending_turn run_id db ≡ some turn)
          × (db'.turns ≡ (accept_turn turn.id hash db).turns))
      × (count_of is_open db'.turns + 1 ≡ count_of is_open db.turns)
      × (transition_count run_id db' ≡ transition_count run_id db + 1)
      × LocksAfter s db db'
      × ((k : ℕ) → load_run st k db' ≡ set_run st s k (load_run st k db))

  one_more :
      (run_id : ℕ) (current s : RunState) (hash : String) (db db1 : Database st.Text)
      → db1.transitions ≡ db.transitions
      → count_of
          (λ row. row.run_id == run_id)
          (insert_transition run_id current s hash db1).transitions
        ≡ transition_count run_id db + 1
  unfolding insert_transition transition_count count_of
  one_more run_id current s hash db db1 e =
      rw (eqb_refl ℕ_discrete run_id)
        (omega (arith, ap (λ rows. count_of (λ row. row.run_id == run_id) rows) e))

  module _ (now run_id : ℕ) (hash : String) (s : RunState) (db db1 : Database st.Text)
      (current : RunState) (turn : TurnRow) where
    abbrev before : Database st.Text
    before = accept_turn turn.id hash db

    abbrev after : Database st.Text
    after = release_if_terminal s (insert_transition run_id current s hash db1)

    after-turns : db1.turns ≡ before.turns → after.turns ≡ before.turns
    unfolding insert_transition
    after-turns e = (released-others s (insert_transition run_id current s hash db1)).0 ∙ e

    after-transitions :
        db1.transitions ≡ before.transitions
        → transition_count run_id after ≡ transition_count run_id db + 1
    unfolding transition_count accept_turn
    after-transitions e =
        ap (λ rows. count_of (λ row. row.run_id == run_id) rows)
          ((released-others s (insert_transition run_id current s hash db1)).1)
        ∙ one_more run_id current s hash db db1 e

    after-locks : db1.locks ≡ before.locks → LocksAfter s db after
    unfolding insert_transition accept_turn
    after-locks e = release-LocksAfter s db (insert_transition run_id current s hash db1) e

    after-load :
        update_run_row st now run_id s before ≡ ok (tt, db1)
        → s.facts.run_id ≡ run_id
        → (k : ℕ) → load_run st k after ≡ set_run st s k (load_run st k db)
    unfolding insert_transition accept_turn
    after-load update own k =
        load_run-runs st k db1 after
          (release_if_terminal-runs st s (insert_transition run_id current s hash db1))
        ∙ load_run-update st now run_id s before db1 k update
        ∙ ap (λ id. if id == k then read_back st s else load_run st k before) (sym own)
        ∙ ap (λ r. set_run st s k r) (load_run-runs st k db before refl)

  -- An acceptance that succeeds is of the run whose state it gets. It accepts
  -- the newest turn of the run that is pending or sent, which leaves one less of these; it adds one
  -- transition to the run's; it releases the lock of the run if the state is terminal and keeps the
  -- locks else; and this run is loaded as the text of the state is read, every other run as before.
  pub accept_response_and_advance-Accepts :
      (now run_id : ℕ) (hash : String) (s : RunState) (db : Database st.Text)
      → (accept_response_and_advance st now run_id hash s db).0 ≡ ok tt
      → Accepts run_id hash s db (accept_response_and_advance st now run_id hash s db).1
  unfolding accept_response_and_advance
  accept_response_and_advance-Accepts now run_id hash s db h =
      let (db', run, left) = commit-ok db (accept_response_txn st now run_id hash s db) tt h in
      let (current, turn, db1, loaded, found, update, e, own, one) =
        accept_response_txn-ok now run_id hash s db db' run in
      let (turns, locks, transitions) =
        update-others now run_id s (accept_turn turn.id hash db) db1 update in
      let same = eqb_sound ℕ_discrete s.facts.run_id run_id own in
      let kept = after-turns now run_id hash s db db1 current turn turns in
      subst (Accepts run_id hash s db) (sym (left ∙ e)) (
        same,
        (turn, found, kept),
        ap (λ rows. count_of is_open rows + 1) kept ∙ fewer_open turn.id hash db one,
        after-transitions now run_id hash s db db1 current turn transitions,
        after-locks now run_id hash s db db1 current turn locks,
        after-load now run_id hash s db db1 current turn update same,
      )
