-- ===== src/Store/Patched.antt =====
-- crates/daemon/src/store.rs: the patch of a request is recorded once and stays on record.
use worktree_merge_consensus.Prelude.{
  ℕ, String, Bool, true, false, some, List, [], ◌∷◌, any, ◌≡◌, refl, arith, inl, inr, Bool-cases,
  nat_eq, string_eq, eqb_refl, eqb_sound, String-discrete,
}
use native.Mathlib.Decide.{ℕ_discrete}
use worktree_merge_consensus.Prelude.Results.{Result, ok, err, Result-cases}
use worktree_merge_consensus.Prelude.Tables.{find}
use worktree_merge_consensus.Store.Defs.{Storage, StoreError, PatchRow, Database}
use worktree_merge_consensus.Store.Txn.{commit-ok}
use worktree_merge_consensus.Store.Patches.{
  is_patch_of, record_patch_txn, record_successful_patch_with_provenance, successful_patch_record,
}
use worktree_merge_consensus.Store.Calls.{Call, forget, call, run_calls}
use worktree_merge_consensus.Store.Calls.Call.{patching}
use worktree_merge_consensus.Store.Frames.{call-KeepsBy}

any-find : {A : Type 0} (p : A → Bool) (xs : List A) (x : A) → find p xs ≡ some x → any p xs ≡ true
unfolding any find
any-find p [] x h = ground arith
any-find p (y ∷ ys) x h = ground (arith, any-find p ys x)

is_patch_of-own : (patch : PatchRow) → is_patch_of patch.run_id patch.message_hash patch ≡ true
unfolding is_patch_of
is_patch_of-own patch =
    ground (arith, eqb_refl ℕ_discrete patch.run_id, eqb_refl String-discrete patch.message_hash)

is_patch_of-keys :
    (run_id : ℕ) (message_hash : String) (patch : PatchRow)
    → is_patch_of run_id message_hash patch ≡ true
    → (patch.run_id ≡ run_id) × (patch.message_hash ≡ message_hash)
unfolding is_patch_of
is_patch_of-keys run_id message_hash patch h = (
  ground (arith, eqb_sound ℕ_discrete patch.run_id run_id),
  ground (arith, eqb_sound String-discrete patch.message_hash message_hash),
)

-- A patch that is recorded had no record of its request before, and is the newest row.
recorded :
    {Text : Type 0} (patch r : PatchRow) (db db' : Database Text)
    → record_patch_txn patch db ≡ ok (r, db')
    → (r ≡ patch)
      × (any (is_patch_of patch.run_id patch.message_hash) db.patch_applications ≡ false)
      × (db'.patch_applications ≡ patch ∷ db.patch_applications)
unfolding record_patch_txn
recorded patch r db db' h = ground arith

module _ (st : Storage) (run_id : ℕ) (message_hash : String) (held : PatchRow) where
  pushed :
      (patch : PatchRow) (rows : List PatchRow)
      → find (is_patch_of run_id message_hash) rows ≡ some held
      → any (is_patch_of patch.run_id patch.message_hash) rows ≡ false
      → find (is_patch_of run_id message_hash) (patch ∷ rows) ≡ some held
  unfolding find
  pushed patch rows found fresh = elim (Bool-cases (is_patch_of run_id message_hash patch)) [
    | inr other ↦ rw other found
    | inl same ↦
        let (run, hash) = is_patch_of-keys run_id message_hash patch same in
        let taken = any-find (is_patch_of run_id message_hash) rows held found in
        let clash : any (is_patch_of patch.run_id patch.message_hash) rows ≡ true =
          rw run (rw hash taken) in
        ground arith
  ]

  patching-IsHeld :
      (patch : PatchRow) (db : Database st.Text)
      → successful_patch_record run_id message_hash db ≡ some held
      → successful_patch_record run_id message_hash
          (record_successful_patch_with_provenance patch db).1
        ≡ some held
  unfolding record_successful_patch_with_provenance successful_patch_record
  patching-IsHeld patch db found = elim (Result-cases (record_patch_txn patch db)) [
    | inr (e, q) ↦ rw q found
    | inl ((r, db'), q) ↦
        let (_, fresh, more) = recorded patch r db db' q in
        rw q (rw more (pushed patch db.patch_applications found fresh))
  ]

  forget_left :
      {A : Type 0} (r : Result StoreError A × Database st.Text)
      → successful_patch_record run_id message_hash (forget r).1
        ≡ successful_patch_record run_id message_hash r.1
  forget_left (ok a, db) = refl
  forget_left (err e, db) = refl

  kept :
      (db db' : Database st.Text)
      → db'.patch_applications ≡ db.patch_applications
      → successful_patch_record run_id message_hash db ≡ some held
      → successful_patch_record run_id message_hash db' ≡ some held
  unfolding successful_patch_record
  kept db db' same found = rw same found

  call-IsHeld :
      (c : Call) (db : Database st.Text)
      → successful_patch_record run_id message_hash db ≡ some held
      → successful_patch_record run_id message_hash (call st c db).1 ≡ some held
  call-IsHeld (patching patch) db found =
      unfold call in
      rw (forget_left (record_successful_patch_with_provenance patch db))
        (patching-IsHeld patch db found)
  call-IsHeld c db found = kept db (call st c db).1 ((call-KeepsBy st db c).2 refl) found

  calls-IsHeld :
      (cs : List Call) (db : Database st.Text)
      → successful_patch_record run_id message_hash db ≡ some held
      → successful_patch_record run_id message_hash (run_calls st cs db) ≡ some held
  unfolding run_calls
  calls-IsHeld [] db found = found
  calls-IsHeld (c ∷ cs) db found = calls-IsHeld cs (call st c db).1 (call-IsHeld c db found)

module _ (st : Storage) where
  recorded-IsHeld :
      (patch r : PatchRow) (db : Database st.Text)
      → (record_successful_patch_with_provenance patch db).0 ≡ ok r
      → successful_patch_record patch.run_id patch.message_hash
          (record_successful_patch_with_provenance patch db).1
        ≡ some patch
  unfolding record_successful_patch_with_provenance successful_patch_record find
  recorded-IsHeld patch r db first =
      let (db', run, left) = commit-ok db (record_patch_txn patch db) r first in
      let (_, _, more) = recorded patch r db db' run in
      rw left (rw more (rw (is_patch_of-own patch) refl))

  held-refuses :
      (patch held r : PatchRow) (db : Database st.Text)
      → successful_patch_record patch.run_id patch.message_hash db ≡ some held
      → ¬ ((record_successful_patch_with_provenance patch db).0 ≡ ok r)
  unfolding record_successful_patch_with_provenance successful_patch_record
  held-refuses patch held r db found again =
      let (db', run, _) = commit-ok db (record_patch_txn patch db) r again in
      let (_, fresh, _) = recorded patch r db db' run in
      let taken =
        any-find (is_patch_of patch.run_id patch.message_hash) db.patch_applications held found in
      ground arith

  -- After any calls that follow the recording of a patch, the patch is on record for its request as
  -- it was given, and no other patch of the request is recorded.
  pub record_successful_patch_with_provenance-once :
      (patch r : PatchRow) (db : Database st.Text)
      → (record_successful_patch_with_provenance patch db).0 ≡ ok r
      → (cs : List Call)
      → (successful_patch_record patch.run_id patch.message_hash
            (run_calls st cs (record_successful_patch_with_provenance patch db).1)
          ≡ some patch)
        × ((other r' : PatchRow)
            → other.run_id ≡ patch.run_id
            → other.message_hash ≡ patch.message_hash
            → ¬ (
                (record_successful_patch_with_provenance other
                  (run_calls st cs (record_successful_patch_with_provenance patch db).1)).0
                ≡ ok r'))
  record_successful_patch_with_provenance-once patch r db first cs =
      let later = run_calls st cs (record_successful_patch_with_provenance patch db).1 in
      let held =
        calls-IsHeld st patch.run_id patch.message_hash patch cs
          (record_successful_patch_with_provenance patch db).1 (recorded-IsHeld patch r db first) in
      (held, λ other r' run hash. held-refuses other patch r' later (rw run (rw hash held)))
