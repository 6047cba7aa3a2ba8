-- ===== src/Store/Bindings.antt =====
-- crates/daemon/src/store.rs: which task stands in for the Primary, generation by generation.
pub mod Rotation
use worktree_merge_consensus.Prelude.{
  ℕ, ◌+◌, Bool, true, false, not, ◌&&◌, ◌||◌, String, Option, none, some, List, [], ◌∷◌, any,
  count_of, is_some, is_none, ltb, if◌then◌else◌, ◌==◌, ◌!=◌, nat_eq, string_eq, option_eq,
}
use worktree_merge_consensus.Prelude.Results.{Result, ok, err, ◌>>=◌, ◌>>◌, guard, ok_or}
use worktree_merge_consensus.Prelude.Tables.{find, update}
use worktree_merge_consensus.Text.{is_blank}
use worktree_merge_consensus.Store.Defs.{
  StoreError, PrimaryBindingMode, mode_eq, FactsRow, BindingRow, PrimaryParticipantBinding,
  Database,
}
use worktree_merge_consensus.Store.Txn.{Txn, commit, has_run, ensure_run_exists}
use worktree_merge_consensus.Store.Turns.{is_open_of}

unfoldable pub is_active_of : ℕ → BindingRow → Bool
is_active_of run_id row = row.binding.run_id == run_id && row.active

unfoldable pub has_generation : ℕ → ℕ → BindingRow → Bool
has_generation run_id generation row =
    row.binding.run_id == run_id && row.binding.generation == generation

abbrev pub binding_of : Option BindingRow → Option PrimaryParticipantBinding
binding_of none = none
binding_of (some row) = some row.binding

unfoldable pub deactivate : BindingRow → BindingRow
deactivate row = record row { active = false }

-- `COALESCE(MAX(generation), 0)`
unfoldable pub last_generation : ℕ → List BindingRow → ℕ
last_generation run_id [] = 0
last_generation run_id (row ∷ rows) =
    let rest = last_generation run_id rows in
    if row.binding.run_id == run_id && ltb rest row.binding.generation
    then row.binding.generation
    else rest

-- `ORDER BY generation ASC LIMIT 1`, of the ephemeral bindings with a history.
unfoldable pub is_ephemeral_of : ℕ → BindingRow → Bool
is_ephemeral_of run_id row =
    row.binding.run_id == run_id
    && row.binding.mode == PrimaryBindingMode.ephemeral_fork
    && is_some row.binding.source_history_hash

abbrev earlier : BindingRow → Option BindingRow → Option BindingRow
earlier row none = some row
earlier row (some other) =
    if ltb row.binding.generation other.binding.generation then some row else some other

unfoldable pub first_ephemeral : ℕ → List BindingRow → Option BindingRow
unfolding is_ephemeral_of
first_ephemeral run_id [] = none
first_ephemeral run_id (row ∷ rows) =
    let rest = first_ephemeral run_id rows in
    if is_ephemeral_of run_id row then earlier row rest else rest

abbrev pub first_history : Option BindingRow → Option String
first_history none = none
first_history (some row) = row.binding.source_history_hash

-- The binding of a mode fits the two frozen tasks of the run.
unfoldable pub mode_fits : PrimaryBindingMode → String → String → String → Option String → Bool
mode_fits PrimaryBindingMode.direct source effective reviewer history =
    effective == source && is_none history
mode_fits PrimaryBindingMode.ephemeral_fork source effective reviewer history =
    not (effective == source || effective == reviewer)
    && elim history [ none ↦ false | some hash ↦ not (is_blank hash) ]

-- The ephemeral bindings of a run share the history of its source.
unfoldable pub history_fits : PrimaryBindingMode → Option String → Option BindingRow → Bool
history_fits PrimaryBindingMode.direct history first = true
history_fits PrimaryBindingMode.ephemeral_fork history first =
    is_none (first_history first) || first_history first == history

unfoldable pub is_same_binding :
    String → String → PrimaryBindingMode → String → Option String → PrimaryParticipantBinding → Bool
is_same_binding source effective mode server history active =
    active.source_primary_thread_id == source
    && active.effective_primary_thread_id == effective
    && active.mode == mode
    && active.participant_server == server
    && active.source_history_hash == history

-- The active binding, if it is the one that is asked for.
abbrev matching :
    String
    → String
    → PrimaryBindingMode
    → String
    → Option String
    → Option PrimaryParticipantBinding
    → Option PrimaryParticipantBinding
matching source effective mode server history none = none
matching source effective mode server history (some active) =
    if is_same_binding source effective mode server history active then some active else none

-- A generation is read as a `u32`.
abbrev pub fits_u32 : ℕ → Bool
fits_u32 n = ltb n 4294967296

module _ {Text : Type 0} where
  unfoldable pub query_active_primary_binding : ℕ → Database Text → Option PrimaryParticipantBinding
  query_active_primary_binding run_id db = binding_of (find (is_active_of run_id) db.bindings)

  unfoldable pub active_primary_binding : ℕ → Database Text → Option PrimaryParticipantBinding
  active_primary_binding run_id db = query_active_primary_binding run_id db

  unfoldable pub query_primary_binding : ℕ → ℕ → Database Text → Option PrimaryParticipantBinding
  query_primary_binding run_id generation db =
      binding_of (find (has_generation run_id generation) db.bindings)

  unfoldable pub primary_binding : ℕ → ℕ → Database Text → Option PrimaryParticipantBinding
  primary_binding run_id generation db = query_primary_binding run_id generation db

  unfoldable pub frozen_tasks : ℕ → Database Text → Option FactsRow
  frozen_tasks run_id db = find (λ (row : FactsRow). row.run_id == run_id) db.source_facts

  unfoldable pub new_binding :
      ℕ
      → ℕ
      → String
      → String
      → PrimaryBindingMode
      → String
      → Option String
      → Database Text
      → PrimaryParticipantBinding
  new_binding now run_id source effective mode server history db = record {
    run_id = run_id;
    source_primary_thread_id = source;
    effective_primary_thread_id = effective;
    mode = mode;
    generation = last_generation run_id db.bindings + 1;
    participant_server = server;
    source_history_hash = history;
    created_at = now;
    verified_at = now;
  }

  -- The binding on top of the others, which are active no more where `p` holds.
  unfoldable pub put_binding :
      (BindingRow → Bool) → PrimaryParticipantBinding → Database Text → Database Text
  put_binding p new db = record db {
    bindings = record { binding = new; active = true } ∷ update p deactivate db.bindings;
  }

  activate_txn :
      ℕ
      → ℕ
      → String
      → String
      → PrimaryBindingMode
      → String
      → Option String
      → Database Text
      → Txn Text PrimaryParticipantBinding
  activate_txn now run_id source effective mode server history db = do
    guard StoreError.incompatible_state
        (not (is_blank source || is_blank effective || is_blank server))
    ensure_run_exists run_id db
    frozen ← ok_or (frozen_tasks run_id db) StoreError.database
    guard StoreError.incompatible_state (source == frozen.facts.primary_thread_id)
    guard StoreError.incompatible_state
        (mode_fits mode source effective frozen.facts.reviewer_thread_id history)
    guard StoreError.incompatible_state
        (history_fits mode history (first_ephemeral run_id db.bindings))
    guard StoreError.incompatible_state (not (any (is_open_of run_id) db.turns))
    elim (matching source effective mode server history (query_active_primary_binding run_id db)) [
      | some active ↦ ok (active, db)
      | none ↦ do
        guard StoreError.database (fits_u32 (last_generation run_id db.bindings + 1))
        let new = new_binding now run_id source effective mode server history db
        ok (new, put_binding (is_active_of run_id) new db)
    ]

  unfoldable pub activate_primary_binding :
      ℕ
      → ℕ
      → String
      → String
      → PrimaryBindingMode
      → String
      → Option String
      → Database Text
      → Result StoreError PrimaryParticipantBinding × Database Text
  unfolding activate_txn
  activate_primary_binding now run_id source effective mode server history db =
      commit db (activate_txn now run_id source effective mode server history db)
