-- ===== src/Store/OneActive.antt =====
-- crates/daemon/src/store.rs: a run has one active Primary binding at most, the newest.
use worktree_merge_consensus.Prelude.{
  ℕ, ◌≤◌, String, Bool, true, false, Option, none, some, List, [], ◌∷◌, count_of, ◌≡◌, refl, sym,
  ap, arith, subst, inl, inr, Bool-cases, Option-cases, ◌==◌, nat_eq, string_eq, eqb_sound, ◌⊎◌,
}
use native.Mathlib.Decide.{ℕ_discrete}
use worktree_merge_consensus.Prelude.Results.{Result, ok, err}
use worktree_merge_consensus.Prelude.Tables.{find, update, count_of-update}
use worktree_merge_consensus.Store.Defs.{
  Storage, StoreError, PrimaryBindingMode, BindingRow, PrimaryParticipantBinding, Database,
}
use worktree_merge_consensus.Store.Bindings.{
  is_active_of, has_generation, deactivate, new_binding, put_binding, query_active_primary_binding,
  activate_primary_binding,
}
use worktree_merge_consensus.Store.Bindings.Rotation.{
  is_active_generation, rotate_ephemeral_primary_binding_for_unsent_pending,
  activate_initial_direct_binding_for_pending_send,
}
use worktree_merge_consensus.Store.Calls.{Call, forget, call, run_calls}
use worktree_merge_consensus.Store.Calls.Call.{activating, rotating, activating_initial}
use worktree_merge_consensus.Store.BindingFrames.{call-bindings}

-- Of the rows of each run, one at most is active.
abbrev pub HasOneActive : List BindingRow → Type 0
HasOneActive rows = (k : ℕ) → count_of (is_active_of k) rows ≤ 1

deactivated : (k : ℕ) (row : BindingRow) → is_active_of k (deactivate row) ≡ false
unfolding is_active_of deactivate
deactivated k row = ground arith

-- No deactivation adds an active row.
count_of-deactivate :
    (p : BindingRow → Bool) (k : ℕ) (rows : List BindingRow)
    → count_of (is_active_of k) (update p deactivate rows) ≤ count_of (is_active_of k) rows
unfolding count_of update
count_of-deactivate p k [] = omega arith
count_of-deactivate p k (row ∷ rows) = elim (Bool-cases (p row)) [
  | inl here ↦ rw here (rw (deactivated k row) (ground (arith, count_of-deactivate p k rows)))
  | inr there ↦ rw there (ground (arith, count_of-deactivate p k rows))
]

-- A new active row of a run without one.
put-HasOneActive :
    (run_id : ℕ) (new : PrimaryParticipantBinding) (rows : List BindingRow)
    → new.run_id ≡ run_id
    → HasOneActive rows
    → count_of (is_active_of run_id) rows ≡ 0
    → HasOneActive (record { binding = new; active = true } ∷ rows)
unfolding count_of is_active_of
put-HasOneActive run_id new rows own one free k = elim (Bool-cases (run_id == k)) [
  | inl same ↦
      ground (arith, ap (λ j. count_of (is_active_of j) rows) (eqb_sound ℕ_discrete run_id k same))
  | inr other ↦ ground (arith, one k)
]

find-none :
    (p : BindingRow → Bool) (rows : List BindingRow) → find p rows ≡ none → count_of p rows ≡ 0
unfolding find count_of
find-none p [] h = refl
find-none p (row ∷ rows) h = ground (arith, find-none p rows)

active-generation :
    (run_id generation : ℕ) (row : BindingRow)
    → is_active_generation run_id generation row ≡ true
    → is_active_of run_id row ≡ true
unfolding is_active_generation has_generation is_active_of
active-generation run_id generation row h = ground arith

module _ {Text : Type 0} (db : Database Text) (one : HasOneActive db.bindings) (run_id : ℕ) where
  put_binding-HasOneActive :
      (p : BindingRow → Bool) (new : PrimaryParticipantBinding)
      → new.run_id ≡ run_id
      → count_of (is_active_of run_id) (update p deactivate db.bindings) ≡ 0
      → HasOneActive (put_binding p new db).bindings
  unfolding put_binding
  put_binding-HasOneActive p new own free =
      put-HasOneActive run_id new (update p deactivate db.bindings) own
        (λ k. omega (arith, count_of-deactivate p k db.bindings, one k)) free

  all_deactivated :
      count_of (is_active_of run_id) (update (is_active_of run_id) deactivate db.bindings) ≡ 0
  all_deactivated = omega (
    arith,
    count_of-update (is_active_of run_id) (is_active_of run_id) deactivate db.bindings (λ row h. h)
        (λ row h. deactivated run_id row),
  )

  one_deactivated :
      (generation : ℕ)
      → count_of (is_active_generation run_id generation) db.bindings ≡ 1
      → count_of
          (is_active_of run_id)
          (update (is_active_generation run_id generation) deactivate db.bindings)
        ≡ 0
  one_deactivated generation h = omega (
    arith,
    one run_id,
    count_of-update (is_active_generation run_id generation) (is_active_of run_id) deactivate
        db.bindings (active-generation run_id generation) (λ row h. deactivated run_id row),
  )

  none_active :
      query_active_primary_binding run_id db ≡ none
      → count_of (is_active_of run_id) (update (λ _. false) deactivate db.bindings) ≡ 0
  unfolding query_active_primary_binding
  none_active h = elim (Option-cases (find (is_active_of run_id) db.bindings)) [
    | inr (row, e) ↦ ground arith
    | inl e ↦ omega (
      arith,
      find-none (is_active_of run_id) db.bindings e,
      count_of-deactivate (λ _. false) run_id db.bindings,
    )
  ]

  activating-put :
      (now : ℕ) (source effective : String) (mode : PrimaryBindingMode) (server : String)
      (history : Option String)
      → ((activate_primary_binding now run_id source effective mode server history db).1.bindings
          ≡ db.bindings)
        ⊎ ((activate_primary_binding now run_id source effective mode server history db).1.bindings
            ≡ (put_binding
                (is_active_of run_id)
                (new_binding now run_id source effective mode server history db)
                db).bindings)
  unfolding activate_primary_binding
  activating-put now source effective mode server history = ground arith

  rotating-put :
      (now generation : ℕ) (source effective server history : String)
      → ((rotate_ephemeral_primary_binding_for_unsent_pending now run_id generation source effective
            server history db).1.bindings
          ≡ db.bindings)
        ⊎ (((rotate_ephemeral_primary_binding_for_unsent_pending now run_id generation source
                effective server history db).1.bindings
              ≡ (put_binding
                  (is_active_generation run_id generation)
                  (new_binding now run_id source effective PrimaryBindingMode.ephemeral_fork server
                    (some history)
                    db)
                  db).bindings)
            × (count_of (is_active_generation run_id generation) db.bindings ≡ 1))
  unfolding rotate_ephemeral_primary_binding_for_unsent_pending
  rotating-put now generation source effective server history = ground (
    arith,
    eqb_sound ℕ_discrete (count_of (is_active_generation run_id generation) db.bindings) 1,
  )

  initial-put :
      (now : ℕ) (source server : String)
      → ((activate_initial_direct_binding_for_pending_send now run_id source server db).1.bindings
          ≡ db.bindings)
        ⊎ (((activate_initial_direct_binding_for_pending_send now run_id source server
                db).1.bindings
              ≡ (put_binding
                  (λ _. false)
                  (new_binding now run_id source source PrimaryBindingMode.direct server none db)
                  db).bindings)
            × (query_active_primary_binding run_id db ≡ none))
  unfolding activate_initial_direct_binding_for_pending_send
  initial-put now source server = ground arith

  new_binding-run :
      (now : ℕ) (source effective : String) (mode : PrimaryBindingMode) (server : String)
      (history : Option String)
      → (new_binding now run_id source effective mode server history db).run_id ≡ run_id
  unfolding new_binding
  new_binding-run now source effective mode server history = refl

module _ (st : Storage) (db : Database st.Text) (one : HasOneActive db.bindings) where
  forget-HasOneActive :
      {A : Type 0} (r : Result StoreError A × Database st.Text)
      → HasOneActive r.1.bindings
      → HasOneActive (forget r).1.bindings
  forget-HasOneActive (ok a, d) h = h
  forget-HasOneActive (err e, d) h = h

  call-HasOneActive : (c : Call) → HasOneActive (call st c db).1.bindings
  call-HasOneActive (activating now run_id source effective mode server history) =
      unfold call in
      forget-HasOneActive
        (activate_primary_binding now run_id source effective mode server history db)
        (elim (activating-put db one run_id now source effective mode server history) [
          | inl e ↦ subst HasOneActive (sym e) one
          | inr e ↦ subst HasOneActive (sym e) (
              put_binding-HasOneActive db one run_id (is_active_of run_id)
                (new_binding now run_id source effective mode server history db)
                (new_binding-run db one run_id now source effective mode server history)
                (all_deactivated db one run_id))
        ])
  call-HasOneActive (rotating now run_id generation source effective server history) =
      unfold call in
      forget-HasOneActive
        (rotate_ephemeral_primary_binding_for_unsent_pending now run_id generation source effective
          server history db)
        (elim (rotating-put db one run_id now generation source effective server history) [
          | inl e ↦ subst HasOneActive (sym e) one
          | inr (e, h) ↦ subst HasOneActive (sym e) (
              put_binding-HasOneActive db one run_id (is_active_generation run_id generation)
                (new_binding now run_id source effective PrimaryBindingMode.ephemeral_fork server
                  (some history) db)
                (new_binding-run db one run_id now source effective
                  PrimaryBindingMode.ephemeral_fork server (some history))
                (one_deactivated db one run_id generation h))
        ])
  call-HasOneActive (activating_initial now run_id source server) =
      unfold call in
      forget-HasOneActive
        (activate_initial_direct_binding_for_pending_send now run_id source server db)
        (elim (initial-put db one run_id now source server) [
          | inl e ↦ subst HasOneActive (sym e) one
          | inr (e, h) ↦ subst HasOneActive (sym e) (
              put_binding-HasOneActive db one run_id (λ _. false)
                (new_binding now run_id source source PrimaryBindingMode.direct server none db)
                (new_binding-run db one run_id now source source PrimaryBindingMode.direct server
                  none)
                (none_active db one run_id h))
        ])
  call-HasOneActive c = subst HasOneActive (sym (call-bindings st db c refl)) one

-- After any calls, each run has one active Primary binding at most, if it had before.
pub run_calls-HasOneActive :
    (st : Storage) (cs : List Call) (db : Database st.Text)
    → HasOneActive db.bindings
    → HasOneActive (run_calls st cs db).bindings
unfolding run_calls
run_calls-HasOneActive st [] db h = h
run_calls-HasOneActive st (c ∷ cs) db h =
    run_calls-HasOneActive st cs (call st c db).1 (call-HasOneActive st db h c)
