-- ===== src/Store/Bindings/Rotation.antt =====
-- crates/daemon/src/store.rs: a binding that changes while a request of the Primary is pending.
use worktree_merge_consensus.Prelude.{
  ℕ, ◌+◌, Bool, true, false, not, ◌&&◌, ◌||◌, String, Option, none, some, count_of, is_some,
  is_none, ◌==◌, nat_eq, string_eq, option_eq,
}
use worktree_merge_consensus.Prelude.Results.{Result, ok, ◌>>=◌, ◌>>◌, guard, ok_or}
use worktree_merge_consensus.Prelude.Tables.{update}
use worktree_merge_consensus.Text.{is_blank}
use worktree_merge_consensus.Store.Defs.{
  StoreError, PrimaryBindingMode, mode_eq, Delivery, delivery_eq, TurnRow, BindingRow,
  PrimaryParticipantBinding, Database,
}
use worktree_merge_consensus.Store.Txn.{Txn, commit, ensure_run_exists}
use worktree_merge_consensus.Store.Turns.{is_open_of, pending_turn}
use worktree_merge_consensus.Store.Bindings.{
  has_generation, last_generation, query_active_primary_binding, frozen_tasks, new_binding,
  put_binding, fits_u32,
}

-- A request of the Primary that was not sent, made under a generation.
unfoldable pub is_unsent : ℕ → TurnRow → Bool
is_unsent generation turn =
    turn.role == "PRIMARY"
    && turn.delivery_state == Delivery.pending
    && is_none turn.thread_id
    && is_none turn.turn_id
    && is_none turn.turn_start_intent_at
    && turn.participant_binding_generation == some generation

-- The active binding that a rotation replaces: the same source and history, another task.
unfoldable pub is_rotated : ℕ → String → String → String → String → PrimaryParticipantBinding → Bool
is_rotated generation source effective server history active =
    active.generation == generation
    && active.mode == PrimaryBindingMode.ephemeral_fork
    && active.source_primary_thread_id == source
    && not (active.effective_primary_thread_id == effective)
    && active.participant_server == server
    && active.source_history_hash == some history

-- `WHERE id = … AND run_id = … AND delivery_state = 'PENDING' AND …`
unfoldable pub is_rebound : ℕ → ℕ → ℕ → TurnRow → Bool
is_rebound id run_id generation turn =
    turn.id == id
    && turn.run_id == run_id
    && turn.delivery_state == Delivery.pending
    && is_none turn.thread_id
    && is_none turn.turn_id
    && is_none turn.turn_start_intent_at
    && turn.participant_binding_generation == some generation

unfoldable pub is_active_generation : ℕ → ℕ → BindingRow → Bool
unfolding has_generation
is_active_generation run_id generation row = has_generation run_id generation row && row.active

unfoldable pub rebind : ℕ → TurnRow → TurnRow
rebind generation turn = record turn { participant_binding_generation = some generation }

-- A turn of the task that is named, or of none yet.
unfoldable pub is_task_or_none : String → Option String → Bool
is_task_or_none source none = true
is_task_or_none source (some id) = id == source

unfoldable pub is_unbound : ℕ → TurnRow → Bool
is_unbound run_id turn =
    turn.run_id == run_id
    && turn.delivery_state == Delivery.pending
    && is_none turn.thread_id
    && is_none turn.turn_id
    && is_none turn.participant_binding_generation

module _ {Text : Type 0} where
  rotate_txn :
      ℕ
      → ℕ
      → ℕ
      → String
      → String
      → String
      → String
      → Database Text
      → Txn Text PrimaryParticipantBinding
  rotate_txn now run_id generation source effective server history db = do
    guard StoreError.incompatible_state
        (not (is_blank source || is_blank effective || is_blank server || is_blank history))
    ensure_run_exists run_id db
    frozen ← ok_or (frozen_tasks run_id db) StoreError.database
    guard StoreError.incompatible_state (
        source == frozen.facts.primary_thread_id
        && not (effective == frozen.facts.primary_thread_id)
        && not (effective == frozen.facts.reviewer_thread_id))
    active ← ok_or (query_active_primary_binding run_id db) StoreError.incompatible_state
    guard StoreError.incompatible_state
        (is_rotated generation source effective server history active)
    turn ← ok_or (pending_turn run_id db) StoreError.incompatible_state
    guard StoreError.incompatible_state
        (count_of (is_open_of run_id) db.turns == 1 && is_unsent generation turn)
    guard StoreError.database (fits_u32 (last_generation run_id db.bindings + 1))
    guard StoreError.incompatible_state
        (count_of (is_active_generation run_id generation) db.bindings == 1)
    let new =
        new_binding now run_id source effective PrimaryBindingMode.ephemeral_fork server
          (some history) db
    guard StoreError.incompatible_state
        (count_of (is_rebound turn.id run_id generation) db.turns == 1)
    ok (
      new,
      record (put_binding (is_active_generation run_id generation) new db) {
        turns = update (is_rebound turn.id run_id generation) (rebind new.generation) db.turns;
      },
    )

  unfoldable pub rotate_ephemeral_primary_binding_for_unsent_pending :
      ℕ
      → ℕ
      → ℕ
      → String
      → String
      → String
      → String
      → Database Text
      → Result StoreError PrimaryParticipantBinding × Database Text
  unfolding rotate_txn
  rotate_ephemeral_primary_binding_for_unsent_pending now run_id generation source effective server
        history db =
      commit db (rotate_txn now run_id generation source effective server history db)

  initial_direct_txn : ℕ → ℕ → String → String → Database Text → Txn Text PrimaryParticipantBinding
  initial_direct_txn now run_id source server db = do
    guard StoreError.incompatible_state (not (is_blank source || is_blank server))
    ensure_run_exists run_id db
    frozen ← ok_or (frozen_tasks run_id db) StoreError.database
    guard StoreError.incompatible_state (source == frozen.facts.primary_thread_id)
    guard StoreError.incompatible_state (is_none (query_active_primary_binding run_id db))
    turn ← ok_or (pending_turn run_id db) StoreError.incompatible_state
    guard StoreError.incompatible_state (
        count_of (is_open_of run_id) db.turns == 1
        && turn.role == "PRIMARY"
        && is_task_or_none source turn.thread_id
        && is_none turn.participant_binding_generation)
    guard StoreError.database (fits_u32 (last_generation run_id db.bindings + 1))
    let new = new_binding now run_id source source PrimaryBindingMode.direct server none db
    guard StoreError.incompatible_state (
        count_of (λ t. is_open_of run_id t && is_none t.participant_binding_generation) db.turns
        == 1)
    ok (
      new,
      record (put_binding (λ _. false) new db) {
        turns =
            update (λ t. is_open_of run_id t && is_none t.participant_binding_generation)
              (rebind new.generation) db.turns;
      },
    )

  unfoldable pub activate_initial_direct_binding_for_pending_send :
      ℕ
      → ℕ
      → String
      → String
      → Database Text
      → Result StoreError PrimaryParticipantBinding × Database Text
  unfolding initial_direct_txn
  activate_initial_direct_binding_for_pending_send now run_id source server db =
      commit db (initial_direct_txn now run_id source server db)

  -- A pending request of a generation must be of the active one; one of none gets it.
  bind_turn : ℕ → ℕ → TurnRow → Database Text → Txn Text (Unit {0})
  bind_turn run_id active turn db = do
    guard StoreError.incompatible_state (turn.role == "PRIMARY")
    elim turn.participant_binding_generation [
      | some generation ↦ do guard StoreError.incompatible_state (generation == active); ok (tt, db)
      | none ↦ do
        guard StoreError.incompatible_state (not (is_some turn.thread_id || is_some turn.turn_id))
        guard StoreError.incompatible_state (count_of (is_unbound run_id) db.turns == 1)
        ok (tt, record db { turns = update (is_unbound run_id) (rebind active) db.turns })
    ]

  bind_unsent_txn : ℕ → Database Text → Txn Text (Unit {0})
  unfolding bind_turn
  bind_unsent_txn run_id db = do
    active ← ok_or (query_active_primary_binding run_id db) StoreError.incompatible_state
    elim (pending_turn run_id db) [
      | none ↦ ok (tt, db)
      | some turn ↦ bind_turn run_id active.generation turn db
    ]

  unfoldable pub bind_unsent_primary_pending_to_active_binding :
      ℕ → Database Text → Result StoreError (Unit {0}) × Database Text
  unfolding bind_unsent_txn
  bind_unsent_primary_pending_to_active_binding run_id db = commit db (bind_unsent_txn run_id db)
