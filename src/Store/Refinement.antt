-- ===== src/Store/Refinement.antt =====
-- crates/daemon/src/store.rs: the store refines a map from runs to states.
use worktree_merge_consensus.Prelude.{
  ℕ, Bool, true, false, Option, List, [], ◌∷◌, ◌≡◌, refl, sym, ◌∙◌, ap, arith, inl, inr, Bool-cases,
  ◌==◌, nat_eq, if◌then◌else◌, subst,
}
use worktree_merge_consensus.Prelude.Results.{Result, ok, err, is_ok}
use worktree_merge_consensus.State.Defs.{RunState}
use worktree_merge_consensus.Store.Defs.{Storage, StoreError, Database}
use worktree_merge_consensus.Store.Codec.{read_back}
use worktree_merge_consensus.Store.Runs.{insert_run, save_state, release_lock, load_run}
use worktree_merge_consensus.Store.Runs.View.{load_run-runs}
use worktree_merge_consensus.Store.Runs.Saved.{
  set_run, insert_run-err, save_state-err, load_run-insert_run, load_run-save_state,
}
use worktree_merge_consensus.Store.Turns.{accept_response_and_advance}
use worktree_merge_consensus.Store.Turns.Accepted.{accept-err, accept_response_and_advance-Accepts}
use worktree_merge_consensus.Store.Reactivation.{Reactivation, reactivate}
use worktree_merge_consensus.Store.Reactivation.Written.{reactivate-err, load_run-reactivate}
use worktree_merge_consensus.Store.Calls.{Call, call, run_calls}
use worktree_merge_consensus.Store.Calls.Call.{
  inserting, saving, accepting, releasing, reactivating,
}
use worktree_merge_consensus.Store.Frames.{call-KeepsBy}

-- What there is to be loaded of each run, and a run set to what the text of a state is read as.
abbrev pub RunMap : Type 0
RunMap = ℕ → Result StoreError (Option RunState)

abbrev pub put : Storage → RunState → RunMap → RunMap
put st s m k = if s.facts.run_id == k then read_back st s else m k

-- What a call that succeeds means for the map.
abbrev pub effect : Storage → Call → RunMap → RunMap
effect st (inserting now s) m = put st s m
effect st (saving now s) m = put st s m
effect st (accepting now run_id hash s) m = put st s m
effect st (reactivating now r admitted) m =
    λ k. if r.blocked.facts.run_id == k then read_back st r.resumed else m k
effect st _ m = m

abbrev writes_state : Call → Bool
writes_state (inserting now s) = true
writes_state (saving now s) = true
writes_state (accepting now run_id hash s) = true
writes_state (reactivating now r admitted) = true
writes_state _ = false

effect-quiet : (st : Storage) (c : Call) (m : RunMap) → writes_state c ≡ false → effect st c m ≡ m
effect-quiet st (inserting now s) m h = ground arith
effect-quiet st (saving now s) m h = ground arith
effect-quiet st (accepting now run_id hash s) m h = ground arith
effect-quiet st (reactivating now r admitted) m h = ground arith
effect-quiet st _ m h = refl

-- A call that writes no state means nothing for the map, whether it succeeds or fails.
either :
    (st : Storage) (b : Bool) (c : Call) (m : RunMap)
    → writes_state c ≡ false
    → effect st c m ≡ (if b then effect st c m else m)
either st true c m h = refl
either st false c m h = effect-quiet st c m h

runs_kept :
    (st : Storage) (db : Database st.Text) (c : Call)
    → writes_state c ≡ false
    → (call st c db).1.runs ≡ db.runs
runs_kept st db (inserting now s) h = ground arith
runs_kept st db (saving now s) h = ground arith
runs_kept st db (accepting now run_id hash s) h = ground arith
runs_kept st db (reactivating now r admitted) h = ground arith
runs_kept st db (releasing run_id) h = unfold call release_lock in refl
runs_kept st db c h = ((call-KeepsBy st db c).0 refl).0

module _ (st : Storage) where
  -- The calls on the map, each if it succeeded.
  abbrev pub replay : List Call → Database st.Text → RunMap → RunMap
  replay [] db m = m
  replay (c ∷ cs) db m =
      replay cs (call st c db).1 (if is_ok (call st c db).0 then effect st c m else m)

  -- What is loaded of each run is what the map holds.
  abbrev pub Represents : Database st.Text → RunMap → Type 0
  Represents db m = (k : ℕ) → load_run st k db ≡ m k

  set_run-put :
      (s : RunState) (db : Database st.Text) (m : RunMap) (k : ℕ)
      → load_run st k db ≡ m k
      → set_run st s k (load_run st k db) ≡ put st s m k
  set_run-put s db m k h = elim (Bool-cases (s.facts.run_id == k)) [
    | inl e ↦ rw e refl
    | inr e ↦ rw e h
  ]

  module _ (db : Database st.Text) (m : RunMap) (represents : Represents db m) where
    -- A state call, by its result and by the table that it leaves.
    by_result :
        (r : Result StoreError (Unit {0})) (db' : Database st.Text) (s : RunState)
        → (r ≡ ok tt → (k : ℕ) → load_run st k db' ≡ set_run st s k (load_run st k db))
        → ((e : StoreError) → r ≡ err e → db' ≡ db)
        → Represents db' (if is_ok r then put st s m else m)
    by_result (ok tt) db' s done failed k = done refl k ∙ set_run-put s db m k (represents k)
    by_result (err e) db' s done failed k = ap (load_run st k) (failed e refl) ∙ represents k

    reactivated :
        (result : Result StoreError (Unit {0})) (db' : Database st.Text) (r : Reactivation)
        → (result ≡ ok tt
            → (k : ℕ)
            → load_run st k db'
              ≡ (if r.blocked.facts.run_id == k then read_back st r.resumed else load_run st k db))
        → ((e : StoreError) → result ≡ err e → db' ≡ db)
        → Represents db' (
            if is_ok result
            then (λ k. if r.blocked.facts.run_id == k then read_back st r.resumed else m k)
            else m)
    reactivated (ok tt) db' r done failed k =
        done refl k
        ∙ ap
            (λ (l : Result StoreError (Option RunState)).
              if r.blocked.facts.run_id == k then read_back st r.resumed else l)
            (represents k)
    reactivated (err e) db' r done failed k = ap (load_run st k) (failed e refl) ∙ represents k

    quiet-Represents :
        (c : Call) → writes_state c ≡ false → Represents (call st c db).1 (effect st c m)
    quiet-Represents c h k =
        load_run-runs st k db (call st c db).1 (runs_kept st db c h)
        ∙ represents k
        ∙ ap (λ (n : RunMap). n k) (sym (effect-quiet st c m h))

    call-Represents :
        (c : Call)
        → Represents (call st c db).1 (if is_ok (call st c db).0 then effect st c m else m)
    call-Represents (inserting now s) =
        unfold call in
        by_result (insert_run st now s db).0 (insert_run st now s db).1 s
          (λ h k. load_run-insert_run st now s db k h) (insert_run-err st now s db)
    call-Represents (saving now s) =
        unfold call in
        by_result (save_state st now s db).0 (save_state st now s db).1 s
          (λ h k. load_run-save_state st now s db k h) (save_state-err st now s db)
    call-Represents (accepting now run_id hash s) =
        unfold call in
        by_result (accept_response_and_advance st now run_id hash s db).0
          (accept_response_and_advance st now run_id hash s db).1 s
          (λ h k.
            let (_, _, _, _, _, load) =
              accept_response_and_advance-Accepts st now run_id hash s db h in
            load k)
          (accept-err st now run_id hash s db)
    call-Represents (reactivating now r admitted) =
        unfold call in
        reactivated (reactivate st now r admitted db).0 (reactivate st now r admitted db).1 r
          (λ h k. load_run-reactivate st now r admitted db k h)
          (reactivate-err st now r admitted db)
    call-Represents c =
        subst (Represents (call st c db).1) (either st (is_ok (call st c db).0) c m refl)
          (quiet-Represents c refl)

  -- The store refines a map from runs to what is loaded of them: where each run is loaded as the map
  -- holds it, it is so after any calls of `Call`, if each successful insertion, save, acceptance or
  -- reactivation sets its run to what the text of the new state is read as, and every other call, and
  -- every one that fails, leaves the map as it is.
  pub run_calls-Represents :
      (cs : List Call) (db : Database st.Text) (m : RunMap)
      → Represents db m
      → Represents (run_calls st cs db) (replay cs db m)
  unfolding run_calls
  run_calls-Represents [] db m h = h
  run_calls-Represents (c ∷ cs) db m h =
      run_calls-Represents cs (call st c db).1 (if is_ok (call st c db).0 then effect st c m else m)
        (call-Represents db m h c)
