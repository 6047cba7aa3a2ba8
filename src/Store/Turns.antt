-- ===== src/Store/Turns.antt =====
-- crates/daemon/src/store.rs: the turns of a run, from the pending request to the accepted response.
pub mod Accepted
use worktree_merge_consensus.Prelude.{
  ℕ, ◌+◌, Bool, true, false, not, ◌&&◌, ◌||◌, String, Option, none, some, List, [], ◌∷◌, any,
  count_of, is_none, if◌then◌else◌, ◌==◌, nat_eq, string_eq, option_eq,
}
use worktree_merge_consensus.Prelude.Results.{Result, ok, err, ◌>>=◌, ◌>>◌, guard, ok_or}
use worktree_merge_consensus.Prelude.Tables.{find, update}
use worktree_merge_consensus.State.Defs.{Phase, RunState}
use worktree_merge_consensus.Store.Defs.{
  Storage, StoreError, Delivery, delivery_eq, TurnRow, TransitionRow, Database,
}
use worktree_merge_consensus.Store.Txn.{Txn, commit, has_run, ensure_run_exists}
use worktree_merge_consensus.Store.Codec.{deserialize_state}
use worktree_merge_consensus.Store.Runs.{find_run, update_run_row, release_if_terminal}

abbrev pub participant_capability_generation : String
participant_capability_generation = "participant-mcp-v2"

-- `delivery_state IN ('PENDING', 'SENT')`
unfoldable pub is_open : TurnRow → Bool
is_open turn = turn.delivery_state == Delivery.pending || turn.delivery_state == Delivery.sent

unfoldable pub is_open_of : ℕ → TurnRow → Bool
unfolding is_open
is_open_of run_id turn = turn.run_id == run_id && is_open turn

unfoldable pub has_hash : ℕ → String → TurnRow → Bool
unfolding is_open_of
has_hash run_id message_hash turn = is_open_of run_id turn && turn.message_hash == message_hash

unfoldable pub same_request : ℕ → String → String → ℕ → String → TurnRow → Bool
same_request run_id role phase round message_hash turn =
    turn.run_id == run_id
    && turn.role == role
    && turn.phase == phase
    && turn.round == round
    && turn.message_hash == message_hash

unfoldable pub pending_turn : {Text : Type 0} → ℕ → Database Text → Option TurnRow
pending_turn run_id db = find (is_open_of run_id) db.turns

-- `PendingSend` and `AcceptedTurn` are the row's columns.
unfoldable pub pending_send : {Text : Type 0} → ℕ → Database Text → Option TurnRow
unfolding pending_turn
pending_send run_id db = pending_turn run_id db

unfoldable pub latest_accepted_turn : {Text : Type 0} → ℕ → Database Text → Option TurnRow
latest_accepted_turn run_id db =
    find (λ turn. turn.run_id == run_id && turn.delivery_state == Delivery.accepted) db.turns

unfoldable pub is_unstarted : ℕ → String → TurnRow → Bool
unfolding has_hash
is_unstarted run_id message_hash turn =
    has_hash run_id message_hash turn && is_none turn.thread_id && is_none turn.turn_id

-- `COALESCE(a, b)`
abbrev pub coalesce : {A : Type 0} → Option A → Option A → Option A
coalesce none b = b
coalesce (some a) b = some a

module _ {Text : Type 0} where
  record_pending_send_txn :
      ℕ → String → String → ℕ → String → Option ℕ → Database Text → Txn Text (Unit {0})
  record_pending_send_txn run_id role phase round message_hash generation db = do
    ensure_run_exists run_id db
    ok (
      tt,
      if any (same_request run_id role phase round message_hash) db.turns then db else record db {
        turns =
            record {
              id = db.next_turn;
              run_id = run_id;
              role = role;
              phase = phase;
              round = round;
              message_hash = message_hash;
              response_hash = none;
              delivery_state = Delivery.pending;
              thread_id = none;
              turn_id = none;
              capability_generation = some participant_capability_generation;
              participant_binding_generation = generation;
              turn_start_intent_at = none;
            }
            ∷ db.turns;
        next_turn = db.next_turn + 1;
      },
    )

  unfoldable pub record_pending_send_with_binding :
      ℕ
      → String
      → String
      → ℕ
      → String
      → Option ℕ
      → Database Text
      → Result StoreError (Unit {0}) × Database Text
  unfolding record_pending_send_txn
  record_pending_send_with_binding run_id role phase round message_hash generation db =
      commit db (record_pending_send_txn run_id role phase round message_hash generation db)

  unfoldable pub record_pending_send :
      ℕ
      → String
      → String
      → ℕ
      → String
      → Database Text
      → Result StoreError (Unit {0}) × Database Text
  record_pending_send run_id role phase round message_hash db =
      record_pending_send_with_binding run_id role phase round message_hash none db

  record_turn_start_intent_txn : ℕ → ℕ → String → Database Text → Txn Text (Unit {0})
  record_turn_start_intent_txn now run_id message_hash db = do
    guard StoreError.pending_send_not_found
        (count_of (is_unstarted run_id message_hash) db.turns == 1)
    ok (
      tt,
      record db {
        turns =
            update (is_unstarted run_id message_hash)
              (λ turn. record turn {
                capability_generation = some participant_capability_generation;
                turn_start_intent_at = coalesce turn.turn_start_intent_at (some now);
              })
              db.turns;
      },
    )

  unfoldable pub record_turn_start_intent :
      ℕ → ℕ → String → Database Text → Result StoreError (Unit {0}) × Database Text
  unfolding record_turn_start_intent_txn
  record_turn_start_intent now run_id message_hash db =
      commit db (record_turn_start_intent_txn now run_id message_hash db)

  -- One statement and no transaction: what it wrote stays written.
  unfoldable pub record_turn_started_with_generation :
      ℕ
      → String
      → String
      → String
      → Bool
      → Database Text
      → Result StoreError (Unit {0}) × Database Text
  record_turn_started_with_generation run_id message_hash thread_id turn_id generation db = (
    guard StoreError.pending_send_not_found (count_of (has_hash run_id message_hash) db.turns == 1),
    record db {
      turns =
          update (has_hash run_id message_hash)
            (λ turn. record turn {
              delivery_state = Delivery.sent;
              thread_id = some thread_id;
              turn_id = some turn_id;
              capability_generation =
                  coalesce (if generation then some participant_capability_generation else none)
                    turn.capability_generation;
            })
            db.turns;
    },
  )

  unfoldable pub record_turn_started :
      ℕ → String → String → String → Database Text → Result StoreError (Unit {0}) × Database Text
  record_turn_started run_id message_hash thread_id turn_id db =
      record_turn_started_with_generation run_id message_hash thread_id turn_id true db

  unfoldable pub record_recovered_turn_started :
      ℕ → String → String → String → Database Text → Result StoreError (Unit {0}) × Database Text
  record_recovered_turn_started run_id message_hash thread_id turn_id db =
      record_turn_started_with_generation run_id message_hash thread_id turn_id false db

  unfoldable pub accept_turn : ℕ → String → Database Text → Database Text
  accept_turn id response_hash db = record db {
    turns =
        update (λ turn. turn.id == id && is_open turn)
          (λ turn. record turn {
            delivery_state = Delivery.accepted;
            response_hash = some response_hash;
          })
          db.turns;
  }

  unfoldable pub insert_transition :
      ℕ → RunState → RunState → String → Database Text → Database Text
  insert_transition run_id current s response_hash db = record db {
    transitions =
        record {
          run_id = run_id;
          from_phase = current.phase;
          to_phase = s.phase;
          status = s.status;
          reason_code = s.reason_code;
          response_hash = some response_hash;
        }
        ∷ db.transitions;
  }

  unfoldable pub transition_count : ℕ → Database Text → ℕ
  transition_count run_id db = count_of (λ row. row.run_id == run_id) db.transitions

module _ (st : Storage) where
  pub accept_response_txn : ℕ → ℕ → String → RunState → Database st.Text → Txn st.Text (Unit {0})
  accept_response_txn now run_id response_hash s db = do
    guard StoreError.run_not_found (s.facts.run_id == run_id)
    row ← ok_or (find_run st run_id db) StoreError.run_not_found
    current ← deserialize_state st row.state_json
    turn ← ok_or (pending_turn run_id db) StoreError.pending_send_not_found
    guard StoreError.pending_send_not_found
        (count_of (λ t. t.id == turn.id && is_open t) db.turns == 1)
    updated ← update_run_row st now run_id s (accept_turn turn.id response_hash db)
    ok (tt, release_if_terminal s (insert_transition run_id current s response_hash updated.1))

  unfoldable pub accept_response_and_advance :
      ℕ → ℕ → String → RunState → Database st.Text → Result StoreError (Unit {0}) × Database st.Text
  unfolding accept_response_txn
  accept_response_and_advance now run_id response_hash s db =
      commit db (accept_response_txn now run_id response_hash s db)
