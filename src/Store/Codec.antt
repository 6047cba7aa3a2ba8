-- ===== src/Store/Codec.antt =====
-- crates/daemon/src/store.rs: a state as it is stored, with the checks before and after.
use worktree_merge_consensus.Prelude.{
  ◌≡◌, arith, Bool, true, false, Option, some, ◌==◌, option_eq, nat_eq,
}
use worktree_merge_consensus.Prelude.Results.{Result, ok, ◌>>=◌, ◌>>◌, guard, ok_or, is_ok}
use worktree_merge_consensus.State.Defs.{RunStatus, RunState, run_state_schema_version, status_eq}
use worktree_merge_consensus.State.Persisted.{validate_persisted}
use worktree_merge_consensus.Store.Defs.{Storage, StoreError}

module _ (st : Storage) where
  unfoldable pub serialize_state : RunState → Result StoreError st.Text
  serialize_state s = do
    guard StoreError.incompatible_state (is_ok (validate_persisted s))
    ok (st.to_string s)

  unfoldable pub deserialize_state : st.Text → Result StoreError RunState
  deserialize_state encoded = do
    document ← ok_or (st.from_str encoded) StoreError.serialization
    guard StoreError.incompatible_state (st.version_of document == some run_state_schema_version)
    s ← ok_or (st.from_value document) StoreError.serialization
    guard StoreError.incompatible_state (is_ok (validate_persisted s))
    ok s

  -- What is loaded of a text that was written for a state.
  abbrev pub read_back : RunState → Result StoreError (Option RunState)
  read_back s = deserialize_state (st.to_string s) >>= λ t. ok (some t)

  pub serialize_state-text :
      (s : RunState) (text : st.Text) → serialize_state s ≡ ok text → st.to_string s ≡ text
  unfolding serialize_state
  serialize_state-text s text h = ground arith

unfoldable pub is_terminal : RunStatus → Bool
is_terminal RunStatus.accepted = true
is_terminal RunStatus.blocked = true
is_terminal RunStatus.cancelled = true
is_terminal RunStatus.incompatible_codex = true
is_terminal _ = false
