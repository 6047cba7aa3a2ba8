-- ===== src/Store/TurnEvents.antt =====
-- crates/daemon/src/store.rs: the events of a turn, and the evidence that they amount to.
use worktree_merge_consensus.Prelude.{
  ℕ, Bool, not, ◌&&◌, ◌||◌, String, Option, none, some, List, [], ◌∷◌, ◌++◌, any, if◌then◌else◌,
  ◌==◌, nat_eq, string_eq, option_eq, Eq,
}
use mathlib.Core.List.{reverse}
use worktree_merge_consensus.Prelude.Results.{Result, ok, err, ◌>>=◌, ◌>>◌, guard, ok_or}
use worktree_merge_consensus.Prelude.Tables.{find, select, update}
use worktree_merge_consensus.Text.{is_blank}
use worktree_merge_consensus.Json.{Value, Value-discrete, get, as_str}
use worktree_merge_consensus.Store.Defs.{
  StoreError, Delivery, delivery_eq, Lifecycle, lifecycle_eq, TurnRow, ItemRow, CompletionRow,
  Database,
}
use worktree_merge_consensus.Store.Txn.{Txn, commit}

instance abbrev value_eq : Eq Value
value_eq = record { dec_eq = Value-discrete }

abbrev pub text_at : Option Value → Option String
text_at none = none
text_at (some v) = as_str v

-- A text field that is not blank.
unfoldable pub solid_field : Value → String → Option String
solid_field v key = elim (text_at (get v key)) [
  | none ↦ none
  | some text ↦ if is_blank text then none else some text
]

unfoldable pub lifecycle_of : String → Option Lifecycle
lifecycle_of method =
    if method == "item/started"
    then some Lifecycle.started
    else if method == "item/completed"
    then some Lifecycle.completed
    else none

unfoldable pub is_active_turn : ℕ → String → String → TurnRow → Bool
is_active_turn run_id thread_id turn_id turn =
    turn.run_id == run_id
    && turn.thread_id == some thread_id
    && turn.turn_id == some turn_id
    && turn.delivery_state == Delivery.sent

unfoldable pub is_item_of : ℕ → String → String → ItemRow → Bool
is_item_of id turn_id item_id row =
    row.turn_record_id == id && row.turn_id == turn_id && row.item_id == item_id

unfoldable pub is_completion_of : ℕ → String → CompletionRow → Bool
is_completion_of id turn_id row = row.turn_record_id == id && row.turn_id == turn_id

-- What a second event of an item makes of its row. A completed row takes no other item.
unfoldable pub next_item : ItemRow → ItemRow → Result StoreError ItemRow
next_item old new =
    if not (old.item_type == new.item_type)
    then err StoreError.incompatible_state
    else if old.lifecycle_state == Lifecycle.completed
    then (if new.lifecycle_state == Lifecycle.completed && not (old.item_json == new.item_json)
        then err StoreError.incompatible_state
        else ok old)
    else ok (record old { lifecycle_state = new.lifecycle_state; item_json = new.item_json })

pub record TurnEventEvidence : Type 0 where
  pub completed_turn : Value
  pub completed_items : List Value
  pub ignored_started_reasoning_item_ids : List String

-- An item in front of the evidence: a completed one, or the reasoning that a completed turn has begun
-- and not ended.
unfoldable pub add_item : Value → ItemRow → TurnEventEvidence → Result StoreError TurnEventEvidence
add_item turn row rest =
    if row.lifecycle_state == Lifecycle.completed
    then ok (record rest { completed_items = row.item_json ∷ rest.completed_items })
    else if text_at (get turn "status") == some "completed" && row.item_type == "reasoning"
    then ok (record rest {
      ignored_started_reasoning_item_ids = row.item_id ∷ rest.ignored_started_reasoning_item_ids;
    })
    else err StoreError.incompatible_state

-- The items of a turn, the oldest first.
unfoldable pub collect_items : Value → List ItemRow → Result StoreError TurnEventEvidence
unfolding add_item
collect_items turn [] = ok (record {
  completed_turn = turn;
  completed_items = [];
  ignored_started_reasoning_item_ids = [];
})
collect_items turn (row ∷ rows) = collect_items turn rows >>= add_item turn row

unfoldable pub completed_turn_of : ℕ → String → String → List CompletionRow → Option CompletionRow
completed_turn_of run_id thread_id turn_id rows =
    find
      (λ (row : CompletionRow).
        row.run_id == run_id && row.thread_id == thread_id && row.turn_id == turn_id)
      rows

module _ {Text : Type 0} where
  unfoldable pub active_turn_record_id : ℕ → String → String → Database Text → Result StoreError ℕ
  active_turn_record_id run_id thread_id turn_id db =
      elim (find (is_active_turn run_id thread_id turn_id) db.turns) [
        | none ↦ err StoreError.pending_send_not_found
        | some turn ↦ ok turn.id
      ]

  -- The item as a row of its own, or in the row that it has.
  unfoldable pub put_item : ItemRow → Database Text → Txn Text (Unit {0})
  put_item new db =
      elim (find (is_item_of new.turn_record_id new.turn_id new.item_id) db.turn_event_items) [
        | none ↦ ok (tt, record db { turn_event_items = new ∷ db.turn_event_items })
        | some old ↦ do
          row ← next_item old new
          ok (
            tt,
            record db {
              turn_event_items =
                  update (is_item_of new.turn_record_id new.turn_id new.item_id) (λ _. row)
                    db.turn_event_items;
            },
          )
      ]

  unfoldable pub item_event_txn :
      ℕ → String → String → String → Value → Database Text → Txn Text (Unit {0})
  item_event_txn run_id thread_id turn_id method item db = do
    lifecycle ← ok_or (lifecycle_of method) StoreError.incompatible_state
    item_id ← ok_or (solid_field item "id") StoreError.incompatible_state
    item_type ← ok_or (solid_field item "type") StoreError.incompatible_state
    id ← active_turn_record_id run_id thread_id turn_id db
    put_item
        (record {
          turn_record_id = id;
          run_id = run_id;
          thread_id = thread_id;
          turn_id = turn_id;
          item_id = item_id;
          item_type = item_type;
          lifecycle_state = lifecycle;
          item_json = item;
        })
        db

  unfoldable pub record_turn_item_event :
      ℕ
      → String
      → String
      → String
      → Value
      → Database Text
      → Result StoreError (Unit {0}) × Database Text
  unfolding item_event_txn put_item
  record_turn_item_event run_id thread_id turn_id method item db =
      commit db (item_event_txn run_id thread_id turn_id method item db)

  -- `turn_record_id` is the table's key, and a turn of a run is completed once.
  completed_event_txn : ℕ → String → String → Value → Database Text → Txn Text (Unit {0})
  completed_event_txn run_id thread_id turn_id turn db = do
    guard StoreError.incompatible_state (text_at (get turn "id") == some turn_id)
    id ← active_turn_record_id run_id thread_id turn_id db
    elim (find (is_completion_of id turn_id) db.turn_event_completions) [
      | some old ↦ do
        guard StoreError.incompatible_state (old.completed_turn_json == turn)
        ok (tt, db)
      | none ↦ do
        guard StoreError.database (
            not (
              any
                (λ (row : CompletionRow).
                  row.turn_record_id == id || (row.run_id == run_id && row.turn_id == turn_id))
                db.turn_event_completions))
        ok (
          tt,
          record db {
            turn_event_completions =
                record {
                  turn_record_id = id;
                  run_id = run_id;
                  thread_id = thread_id;
                  turn_id = turn_id;
                  completed_turn_json = turn;
                }
                ∷ db.turn_event_completions;
          },
        )
    ]

  unfoldable pub record_turn_completed_event :
      ℕ → String → String → Value → Database Text → Result StoreError (Unit {0}) × Database Text
  unfolding completed_event_txn
  record_turn_completed_event run_id thread_id turn_id turn db =
      commit db (completed_event_txn run_id thread_id turn_id turn db)

  -- The completion, archived or not, and the items of the turn.
  unfoldable pub turn_event_evidence :
      ℕ → String → String → Database Text → Result StoreError (Option TurnEventEvidence)
  turn_event_evidence run_id thread_id turn_id db =
      elim (completed_turn_of run_id thread_id turn_id
        (db.turn_event_completions ++ db.archived_completions)) [
          | none ↦ ok none
          | some row ↦
              collect_items row.completed_turn_json (
                reverse (
                  select
                    (λ (item : ItemRow).
                      item.run_id == run_id
                      && item.thread_id == thread_id
                      && item.turn_id == turn_id)
                    db.turn_event_items))
              >>= λ evidence. ok (some evidence)
        ]
