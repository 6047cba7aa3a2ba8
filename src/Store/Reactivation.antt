-- ===== src/Store/Reactivation.antt =====
-- crates/daemon/src/store.rs: the operations that make a blocked run active again, and the one that
-- takes up the archived attempt of a turn.
pub mod Written
pub mod Sent
use worktree_merge_consensus.Prelude.{
  ℕ, ◌+◌, Bool, not, ◌&&◌, ◌||◌, String, Option, none, some, List, [], ◌∷◌, ◌++◌, any, count_of,
  ◌==◌, nat_eq, string_eq, option_eq, false, if◌then◌else◌,
}
use worktree_merge_consensus.Prelude.Results.{Result, ok, err, ◌>>=◌, ◌>>◌, guard, ok_or}
use worktree_merge_consensus.Prelude.Tables.{find, delete, update}
use worktree_merge_consensus.State.Defs.{RunState, RunStatus, status_eq}
use worktree_merge_consensus.State.Equality.{state_eq, facts_eq}
use worktree_merge_consensus.Store.Defs.{
  Storage, StoreError, Delivery, delivery_eq, TurnRow, AttemptRow, CompletionRow, ItemRow,
  TransitionRow, LockRow, Database,
}
use worktree_merge_consensus.Store.Txn.{Txn, commit}
use worktree_merge_consensus.Store.Codec.{deserialize_state}
use worktree_merge_consensus.Store.Runs.{is_locked, lock_of, find_run, update_run_row}
use worktree_merge_consensus.Store.TurnEvents.{is_item_of, is_completion_of}
use worktree_merge_consensus.Store.Archive.{is_attempt, is_reset, archive_and_reset_turn}

-- The turn that an operation archives and resets.
pub record Attempt : Type 0 where
  pub message_hash : String
  pub thread_id : String
  pub turn_id : String
  pub delivery : Delivery
  pub observed_status : String

-- What an operation writes: the run and its states; the turn whose stale events it deletes, if it does;
-- the turn that it archives, if it does; and whether it records a transition.
pub record Reactivation : Type 0 where
  pub blocked : RunState
  pub resumed : RunState
  pub stale : Option (ℕ × String)
  pub attempt : Option Attempt
  pub is_transition : Bool

abbrev pub is_stale_item : ℕ → String → ItemRow → Bool
is_stale_item id turn_id row = row.turn_record_id == id && row.turn_id == turn_id

module _ {Text : Type 0} where
  -- Just one completion of the turn is there to be deleted.
  unfoldable pub delete_stale :
      Option (ℕ × String) → Database Text → Result StoreError (Database Text)
  delete_stale none db = ok db
  delete_stale (some (id, turn_id)) db = do
    guard StoreError.terminal_turn_not_retryable
        (count_of (is_completion_of id turn_id) db.turn_event_completions == 1)
    ok (record db {
      turn_event_items = delete (is_stale_item id turn_id) db.turn_event_items;
      turn_event_completions = delete (is_completion_of id turn_id) db.turn_event_completions;
    })

  unfoldable pub archive_attempt : ℕ → Option Attempt → Database Text → Txn Text (Unit {0})
  archive_attempt run_id none db = ok (tt, db)
  archive_attempt run_id (some attempt) db =
      archive_and_reset_turn run_id attempt.message_hash attempt.thread_id attempt.turn_id
        attempt.delivery attempt.observed_status db

  unfoldable pub with_transition : Reactivation → Database Text → Database Text
  with_transition r db =
      if r.is_transition
      then record db {
        transitions =
            record {
              run_id = r.blocked.facts.run_id;
              from_phase = r.blocked.phase;
              to_phase = r.resumed.phase;
              status = r.resumed.status;
              reason_code = none;
              response_hash = none;
            }
            ∷ db.transitions;
      }
      else db

  -- `UPDATE turns SET thread_id = ?1, turn_id = ?2, turn_start_intent_at = NULL`
  restore_txn : ℕ → String → String → String → String → String → Database Text → Txn Text (Unit {0})
  restore_txn run_id message_hash thread_id turn_id archived_thread_id archived_turn_id db = do
    turn ←
        ok_or (find (is_attempt run_id message_hash thread_id turn_id Delivery.sent) db.turns)
          StoreError.terminal_turn_not_retryable
    guard StoreError.terminal_turn_not_retryable (
        not (any (is_stale_item turn.id turn_id) db.turn_event_items)
        && not (any (is_completion_of turn.id turn_id) db.turn_event_completions)
        && not (any (is_completion_of turn.id turn_id) db.archived_completions))
    guard StoreError.terminal_turn_not_retryable (
        any
          (λ (attempt : AttemptRow).
            attempt.turn_record_id == turn.id
            && attempt.run_id == run_id
            && attempt.message_hash == message_hash
            && attempt.thread_id == archived_thread_id
            && attempt.turn_id == archived_turn_id
            && attempt.terminal_status == "completed"
            && any
                (λ (row : CompletionRow).
                  row.turn_record_id == turn.id
                  && row.run_id == run_id
                  && row.thread_id == archived_thread_id
                  && row.turn_id == archived_turn_id)
                db.archived_completions)
          db.turn_attempts)
    guard StoreError.database (
        not (
          any (λ attempt. attempt.turn_record_id == turn.id && attempt.turn_id == turn_id)
            db.turn_attempts))
    guard StoreError.terminal_turn_not_retryable
        (count_of (is_reset turn.id thread_id turn_id Delivery.sent) db.turns == 1)
    ok (
      tt,
      record db {
        turn_attempts =
            record {
              turn_record_id = turn.id;
              run_id = run_id;
              message_hash = message_hash;
              thread_id = thread_id;
              turn_id = turn_id;
              terminal_status = "unavailable";
            }
            ∷ db.turn_attempts;
        turns =
            update (is_reset turn.id thread_id turn_id Delivery.sent)
              (λ (row : TurnRow). record row {
                thread_id = some archived_thread_id;
                turn_id = some archived_turn_id;
                turn_start_intent_at = none;
              })
              db.turns;
      },
    )

  unfoldable pub restore_archived_completed_turn_after_ephemeral_loss :
      ℕ
      → String
      → String
      → String
      → String
      → String
      → Database Text
      → Result StoreError (Unit {0}) × Database Text
  unfolding restore_txn
  restore_archived_completed_turn_after_ephemeral_loss run_id hash thread_id turn_id to_thread
        to_turn db =
      commit db (restore_txn run_id hash thread_id turn_id to_thread to_turn db)

module _ (st : Storage) where
  abbrev pub lock_taken : Reactivation → LockRow
  lock_taken r = record (lock_of st r.resumed) { run_id = r.blocked.facts.run_id }

  -- The writes that the ten operations have in common, in their order. What an operation reads first
  -- is its own; `admitted` is what that comes to.
  unfoldable pub reactivate_txn :
      ℕ → Reactivation → Result StoreError (Unit {0}) → Database st.Text → Txn st.Text (Unit {0})
  reactivate_txn now r admitted db = do
    admitted
    guard StoreError.active_run_exists (not (is_locked (lock_taken r) db.locks))
    cleared ← delete_stale r.stale (record db { locks = lock_taken r ∷ db.locks })
    archived ← archive_attempt r.blocked.facts.run_id r.attempt cleared
    saved ← update_run_row st now r.blocked.facts.run_id r.resumed archived.1
    ok (tt, with_transition r saved.1)

  unfoldable pub reactivate :
      ℕ
      → Reactivation
      → Result StoreError (Unit {0})
      → Database st.Text
      → Result StoreError (Unit {0}) × Database st.Text
  reactivate now r admitted db = commit db (reactivate_txn now r admitted db)

  -- The state that is stored is the one that the caller read.
  unfoldable pub is_unchanged : RunState → Database st.Text → Result StoreError (Unit {0})
  is_unchanged blocked db = do
    row ← ok_or (find_run st blocked.facts.run_id db) StoreError.run_not_found
    current ← deserialize_state st row.state_json
    guard StoreError.terminal_turn_not_retryable (current == blocked)
