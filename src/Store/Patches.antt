-- ===== src/Store/Patches.antt =====
-- crates/daemon/src/store.rs: the one patch that a request may have applied.
use worktree_merge_consensus.Prelude.{
  ℕ, Bool, not, ◌&&◌, ◌||◌, String, Option, none, some, ◌∷◌, any, is_some, is_none, ◌==◌, nat_eq,
  string_eq,
}
use worktree_merge_consensus.Prelude.Results.{Result, ok, ◌>>=◌, ◌>>◌, guard, ok_or}
use worktree_merge_consensus.Prelude.Tables.{find}
use worktree_merge_consensus.Store.Defs.{StoreError, PatchRow, Database}
use worktree_merge_consensus.Store.Txn.{Txn, commit, ensure_run_exists}
use worktree_merge_consensus.Store.Bindings.{query_primary_binding}

unfoldable pub is_patch_of : ℕ → String → PatchRow → Bool
is_patch_of run_id message_hash patch = patch.run_id == run_id && patch.message_hash == message_hash

-- Who applied a patch is known wholly or not at all.
unfoldable pub has_whole_provenance : PatchRow → Bool
has_whole_provenance patch =
    (is_some patch.source_primary_thread_id
      && is_some patch.effective_primary_thread_id
      && is_some patch.participant_binding_generation)
    || (is_none patch.source_primary_thread_id
        && is_none patch.effective_primary_thread_id
        && is_none patch.participant_binding_generation)

module _ {Text : Type 0} where
  unfoldable pub successful_patch_record : ℕ → String → Database Text → Option PatchRow
  successful_patch_record run_id message_hash db =
      find (is_patch_of run_id message_hash) db.patch_applications

  unfoldable pub successful_patch_recorded : ℕ → String → Database Text → Bool
  successful_patch_recorded run_id message_hash db =
      any (is_patch_of run_id message_hash) db.patch_applications

  unfoldable pub successful_patch_hash : ℕ → String → Database Text → Option String
  successful_patch_hash run_id message_hash db =
      elim (successful_patch_record run_id message_hash db) [
        | none ↦ none
        | some patch ↦ some patch.patch_hash
      ]

  -- The binding of the generation is the one that the patch names.
  unfoldable pub check_provenance : PatchRow → Database Text → Result StoreError (Unit {0})
  check_provenance patch db = elim patch.source_primary_thread_id [
    | none ↦ ok tt
    | some source ↦ elim patch.effective_primary_thread_id [
      | none ↦ ok tt
      | some effective ↦ elim patch.participant_binding_generation [
        | none ↦ ok tt
        | some generation ↦ do
          binding ←
              ok_or (query_primary_binding patch.run_id generation db) StoreError.incompatible_state
          guard StoreError.incompatible_state (
              binding.source_primary_thread_id == source
              && binding.effective_primary_thread_id == effective)
      ]
    ]
  ]

  unfoldable pub record_patch_txn : PatchRow → Database Text → Txn Text PatchRow
  record_patch_txn patch db = do
    guard StoreError.incompatible_state (has_whole_provenance patch)
    ensure_run_exists patch.run_id db
    check_provenance patch db
    guard StoreError.incompatible_state
        (not (any (is_patch_of patch.run_id patch.message_hash) db.patch_applications))
    ok (patch, record db { patch_applications = patch ∷ db.patch_applications })

  unfoldable pub record_successful_patch_with_provenance :
      PatchRow → Database Text → Result StoreError PatchRow × Database Text
  unfolding record_patch_txn
  record_successful_patch_with_provenance patch db = commit db (record_patch_txn patch db)

  unfoldable pub record_successful_patch :
      ℕ → String → String → Database Text → Result StoreError PatchRow × Database Text
  record_successful_patch run_id message_hash patch_hash db =
      record_successful_patch_with_provenance
        (record {
          run_id = run_id;
          message_hash = message_hash;
          patch_hash = patch_hash;
          source_primary_thread_id = none;
          effective_primary_thread_id = none;
          participant_binding_generation = none;
        })
        db
