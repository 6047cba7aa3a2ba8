-- ===== src/Store/Archive.antt =====
-- crates/daemon/src/store.rs: a turn whose attempt is archived before its request is sent again.
use worktree_merge_consensus.Prelude.{
  ℕ, Bool, not, ◌&&◌, ◌||◌, String, none, some, ◌∷◌, ◌++◌, any, count_of, ◌==◌, nat_eq, string_eq,
  option_eq,
}
use worktree_merge_consensus.Prelude.Results.{Result, ok, ◌>>=◌, ◌>>◌, guard, ok_or}
use worktree_merge_consensus.Prelude.Tables.{find, select, delete, update}
use worktree_merge_consensus.Store.Defs.{
  StoreError, Delivery, delivery_eq, TurnRow, AttemptRow, CompletionRow, PatchRow, ItemRow,
  Database,
}
use worktree_merge_consensus.Store.Txn.{Txn, commit}
use worktree_merge_consensus.Store.Turns.{participant_capability_generation}

unfoldable pub is_attempt : ℕ → String → String → String → Delivery → TurnRow → Bool
is_attempt run_id message_hash thread_id turn_id delivery turn =
    turn.run_id == run_id
    && turn.message_hash == message_hash
    && turn.delivery_state == delivery
    && turn.thread_id == some thread_id
    && turn.turn_id == some turn_id

-- The row that is reset.
unfoldable pub is_reset : ℕ → String → String → Delivery → TurnRow → Bool
is_reset id thread_id turn_id delivery turn =
    turn.id == id
    && turn.delivery_state == delivery
    && turn.thread_id == some thread_id
    && turn.turn_id == some turn_id

unfoldable pub reset_turn : TurnRow → TurnRow
reset_turn turn = record turn {
  delivery_state = Delivery.pending;
  thread_id = none;
  turn_id = none;
  response_hash = none;
  capability_generation = some participant_capability_generation;
  turn_start_intent_at = none;
}

unfoldable pub completes : ℕ → String → CompletionRow → Bool
completes id turn_id row = row.turn_record_id == id && row.turn_id == turn_id

-- `PRIMARY KEY(turn_record_id, turn_id), UNIQUE(run_id, turn_id)`
unfoldable pub collides : CompletionRow → CompletionRow → Bool
collides new row =
    (row.turn_record_id == new.turn_record_id && row.turn_id == new.turn_id)
    || (row.run_id == new.run_id && row.turn_id == new.turn_id)

abbrev retry_status : String
retry_status = "completed-event-evidence-unavailable-after-patch"

module _ {Text : Type 0} where
  unfoldable pub archive_and_reset_turn :
      ℕ → String → String → String → Delivery → String → Database Text → Txn Text (Unit {0})
  archive_and_reset_turn run_id message_hash thread_id turn_id delivery observed db = do
    turn ←
        ok_or (find (is_attempt run_id message_hash thread_id turn_id delivery) db.turns)
          StoreError.terminal_turn_not_retryable
    guard StoreError.database (
        not (
          any (λ attempt. attempt.turn_record_id == turn.id && attempt.turn_id == turn_id)
            db.turn_attempts))
    let ended = select (completes turn.id turn_id) db.turn_event_completions
    guard StoreError.database (not (any (λ row. any (collides row) db.archived_completions) ended))
    guard StoreError.terminal_turn_not_retryable
        (count_of (is_reset turn.id thread_id turn_id delivery) db.turns == 1)
    ok (
      tt,
      record db {
        turn_attempts =
            record {
              turn_record_id = turn.id;
              run_id = run_id;
              message_hash = message_hash;
              thread_id = thread_id;
              turn_id = turn_id;
              terminal_status = observed;
            }
            ∷ db.turn_attempts;
        archived_completions = ended ++ db.archived_completions;
        turn_event_completions = delete (completes turn.id turn_id) db.turn_event_completions;
        turns = update (is_reset turn.id thread_id turn_id delivery) reset_turn db.turns;
      },
    )

  -- A reset is for one of the statuses that its caller may have observed.
  reset_observed :
      (String → Bool) → ℕ → String → String → String → String → Database Text → Txn Text (Unit {0})
  reset_observed retryable run_id message_hash thread_id turn_id observed db = do
    guard StoreError.terminal_turn_not_retryable (retryable observed)
    archive_and_reset_turn run_id message_hash thread_id turn_id Delivery.sent observed db

  unfoldable pub reset_terminal_turn_for_retry :
      ℕ
      → String
      → String
      → String
      → String
      → Database Text
      → Result StoreError (Unit {0}) × Database Text
  unfolding reset_observed
  reset_terminal_turn_for_retry run_id message_hash thread_id turn_id status db = commit db (
      reset_observed (λ s. s == "failed" || s == "interrupted") run_id message_hash thread_id
        turn_id status db)

  unfoldable pub reset_completed_read_only_turn_for_retry :
      ℕ
      → String
      → String
      → String
      → String
      → Database Text
      → Result StoreError (Unit {0}) × Database Text
  unfolding reset_observed
  reset_completed_read_only_turn_for_retry run_id message_hash thread_id turn_id status db =
      commit db
        (reset_observed (λ s. s == "completed") run_id message_hash thread_id turn_id status db)

  unfoldable pub reset_completed_integration_tool_failure_turn_for_retry :
      ℕ
      → String
      → String
      → String
      → String
      → Database Text
      → Result StoreError (Unit {0}) × Database Text
  unfolding reset_observed
  reset_completed_integration_tool_failure_turn_for_retry run_id message_hash thread_id turn_id
        status db =
      commit db
        (reset_observed (λ s. s == "completed") run_id message_hash thread_id turn_id status db)

  -- One patch is on record, no event of the turn, and no such retry of the request yet.
  unfoldable pub is_eventless_patch : ℕ → String → String → String → Database Text → Bool
  is_eventless_patch run_id message_hash thread_id turn_id db =
      count_of (λ (patch : PatchRow). patch.run_id == run_id && patch.message_hash == message_hash)
          db.patch_applications
        == 1
      && not (
          any
            (λ (item : ItemRow).
              item.run_id == run_id && item.thread_id == thread_id && item.turn_id == turn_id)
            db.turn_event_items)
      && not (
          any
            (λ (row : CompletionRow).
              row.run_id == run_id && row.thread_id == thread_id && row.turn_id == turn_id)
            db.turn_event_completions)
      && not (
          any
            (λ (attempt : AttemptRow).
              attempt.run_id == run_id
              && attempt.message_hash == message_hash
              && attempt.terminal_status == retry_status)
            db.turn_attempts)

  eventless_txn : ℕ → String → String → String → Database Text → Txn Text (Unit {0})
  eventless_txn run_id message_hash thread_id turn_id db = do
    guard StoreError.terminal_turn_not_retryable
        (is_eventless_patch run_id message_hash thread_id turn_id db)
    archive_and_reset_turn run_id message_hash thread_id turn_id Delivery.sent retry_status db

  unfoldable pub reset_eventless_successful_patch_turn_for_retry :
      ℕ → String → String → String → Database Text → Result StoreError (Unit {0}) × Database Text
  unfolding eventless_txn
  reset_eventless_successful_patch_turn_for_retry run_id message_hash thread_id turn_id db =
      commit db (eventless_txn run_id message_hash thread_id turn_id db)

  unfoldable pub turn_attempt_count : ℕ → Database Text → ℕ
  turn_attempt_count run_id db =
      count_of (λ (attempt : AttemptRow). attempt.run_id == run_id) db.turn_attempts
