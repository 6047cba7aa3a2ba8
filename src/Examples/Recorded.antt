-- ===== src/Examples/Recorded.antt =====
-- The theorems on the patches and the events of the turns, at a request that was sent.
use native.Mathlib.Decide.{ℕ_discrete}
use worktree_merge_consensus.Prelude.{
  ◌≡◌, refl, String, none, some, List, [], ◌∷◌, any, eqb, String-discrete, Option-discrete,
  if◌then◌else◌, not, false,
}
use worktree_merge_consensus.Prelude.Results.{ok, err}
use worktree_merge_consensus.Prelude.Tables.{find}
use worktree_merge_consensus.Text.{is_blank}
use worktree_merge_consensus.Json.{Value, get, as_str}
use worktree_merge_consensus.Json.Value.{string, object}
use worktree_merge_consensus.Json.Fields.{end, field}
use worktree_merge_consensus.State.Defs.{RunState}
use worktree_merge_consensus.Examples.Run.{after, configured}
use worktree_merge_consensus.Examples.Shells.{example_storage}
use worktree_merge_consensus.Store.{
  StoreError, Database, empty_database, Delivery, Delivery-discrete, Lifecycle, Lifecycle-discrete,
  TurnRow, PatchRow, ItemRow, has_run,
}
use worktree_merge_consensus.Store.Runs.{row_of}
use worktree_merge_consensus.Store.Patches.{
  is_patch_of, has_whole_provenance, successful_patch_record, check_provenance, record_patch_txn,
  record_successful_patch_with_provenance,
}
use worktree_merge_consensus.Store.TurnEvents.{
  solid_field, lifecycle_of, is_active_turn, is_item_of, collect_items, active_turn_record_id,
  put_item, item_event_txn, record_turn_item_event,
}
use worktree_merge_consensus.Store.Calls.{Call, run_calls}
use worktree_merge_consensus.Store.Calls.Call.{patching, recording_item, reactivating}
use worktree_merge_consensus.Store.Reactivation.{Reactivation}
use worktree_merge_consensus.Store.Patched.{record_successful_patch_with_provenance-once}
use worktree_merge_consensus.Store.Evidence.{is_settled, evidence_of, collect_items-evidence_of}
use worktree_merge_consensus.Store.FinalItems.{run_calls-turn_event_items}

abbrev sent : TurnRow
sent = record {
  id = 1;
  run_id = 7;
  role = "PRIMARY";
  phase = "INTEGRATION";
  round = 1;
  message_hash = "hash";
  response_hash = none;
  delivery_state = Delivery.sent;
  thread_id = some "thread";
  turn_id = some "turn";
  capability_generation = none;
  participant_binding_generation = none;
  turn_start_intent_at = none;
}

abbrev sending : Database RunState
sending = record empty_database {
  runs =
      record (row_of example_storage 0 (after configured) (after configured)) { run_id = 7 } ∷ [];
  turns = sent ∷ [];
}

abbrev patch_with : String → PatchRow
patch_with hash = record {
  run_id = 7;
  message_hash = "hash";
  patch_hash = hash;
  source_primary_thread_id = none;
  effective_primary_thread_id = none;
  participant_binding_generation = none;
}

abbrev message : String → Value
message text = object (
    field "id" (string "item")
      (field "type" (string "agentMessage") (field "text" (string text) end)))

-- What follows: another patch, the item begun and completed with another text, and a recovery that
-- deletes the events of another turn.
abbrev recovery : Reactivation
recovery = record {
  blocked = after configured;
  resumed = after configured;
  stale = some (1, "old");
  attempt = none;
  is_transition = false;
}

abbrev later_calls : List Call
later_calls =
    patching (patch_with "second")
    ∷ recording_item 7 "thread" "turn" "item/started" (message "second")
    ∷ recording_item 7 "thread" "turn" "item/completed" (message "second")
    ∷ reactivating 2 recovery (ok tt)
    ∷ []

abbrev finished : ItemRow
finished = record {
  turn_record_id = 1;
  run_id = 7;
  thread_id = "thread";
  turn_id = "turn";
  item_id = "item";
  item_type = "agentMessage";
  lifecycle_state = Lifecycle.completed;
  item_json = message "first";
}

abbrev begun : ItemRow
begun = record finished {
  item_id = "thought";
  item_type = "reasoning";
  lifecycle_state = Lifecycle.started;
}

abbrev completed_turn : Value
completed_turn = object (field "status" (string "completed") end)

abbrev ending : Database RunState
ending = (record_turn_item_event 7 "thread" "turn" "item/completed" (message "first") sending).1

patched :
    (record_successful_patch_with_provenance (patch_with "first") sending).0
    ≡ ok (patch_with "first")
unfolding record_successful_patch_with_provenance record_patch_txn has_whole_provenance
    check_provenance is_patch_of has_run any eqb ℕ_discrete String-discrete
patched = refl

ended : find (is_item_of 1 "turn" "item") ending.turn_event_items ≡ some finished
unfolding record_turn_item_event item_event_txn put_item lifecycle_of solid_field is_blank get
    as_str active_turn_record_id is_active_turn is_item_of find eqb ℕ_discrete String-discrete
    Option-discrete Delivery-discrete
ended = refl

record_successful_patch_with_provenance-once_example :
    (successful_patch_record 7 "hash" (
        run_calls example_storage later_calls
          (record_successful_patch_with_provenance (patch_with "first") sending).1)
      ≡ some (patch_with "first"))
    × ((other r : PatchRow)
        → other.run_id ≡ 7
        → other.message_hash ≡ "hash"
        → ¬ (
            (record_successful_patch_with_provenance other (
              run_calls example_storage later_calls
                (record_successful_patch_with_provenance (patch_with "first") sending).1)).0
            ≡ ok r))
record_successful_patch_with_provenance-once_example =
    record_successful_patch_with_provenance-once example_storage (patch_with "first")
      (patch_with "first") sending patched later_calls

run_calls-turn_event_items_example :
    find
      (is_item_of 1 "turn" "item")
      (run_calls example_storage later_calls ending).turn_event_items
    ≡ some finished
unfolding eqb Lifecycle-discrete ℕ_discrete String-discrete
run_calls-turn_event_items_example =
    run_calls-turn_event_items example_storage 1 "turn" "item" finished later_calls ending
      (refl, (refl, (refl, (refl, tt)))) refl ended

collect_items-evidence_of_example : collect_items completed_turn (finished ∷ begun ∷ []) ≡ (
    if any (λ row. not (is_settled completed_turn row)) (finished ∷ begun ∷ [])
    then err StoreError.incompatible_state
    else ok (evidence_of completed_turn (finished ∷ begun ∷ [])))
collect_items-evidence_of_example = collect_items-evidence_of completed_turn (finished ∷ begun ∷ [])
