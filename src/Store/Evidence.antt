-- ===== src/Store/Evidence.antt =====
-- crates/daemon/src/store.rs: what the evidence of a turn tells of its items.
use worktree_merge_consensus.Prelude.{
  Bool, not, ◌&&◌, ◌||◌, some, List, [], ◌∷◌, any, map, if◌then◌else◌, ◌==◌, option_eq, string_eq,
  ◌≡◌, refl, arith, nat_eq,
}
use worktree_merge_consensus.Prelude.Results.{ok, err}
use worktree_merge_consensus.Prelude.Tables.{select}
use worktree_merge_consensus.Json.{Value, get}
use worktree_merge_consensus.Store.Defs.{StoreError, Lifecycle, lifecycle_eq, ItemRow}
use worktree_merge_consensus.Store.TurnEvents.{text_at, TurnEventEvidence, add_item, collect_items}

abbrev pub is_completed : ItemRow → Bool
is_completed row = row.lifecycle_state == Lifecycle.completed

-- An item that evidence of a completed turn may hold: a completed one, or reasoning that has begun.
abbrev pub is_settled : Value → ItemRow → Bool
is_settled turn row =
    is_completed row
    || (text_at (get turn "status") == some "completed" && row.item_type == "reasoning")

-- The evidence as one look at the rows has it.
abbrev pub evidence_of : Value → List ItemRow → TurnEventEvidence
evidence_of turn rows = record {
  completed_turn = turn;
  completed_items = map (λ (row : ItemRow). row.item_json) (select is_completed rows);
  ignored_started_reasoning_item_ids =
      map (λ (row : ItemRow). row.item_id) (select (λ row. not (is_completed row)) rows);
}

-- The evidence of a turn is refused when an item of it is neither completed nor reasoning of a
-- completed turn, and otherwise lists the completed items and the names of the others, all in the
-- order of the rows.
pub collect_items-evidence_of :
    (turn : Value) (rows : List ItemRow)
    → collect_items turn rows ≡ (
        if any (λ row. not (is_settled turn row)) rows
        then err StoreError.incompatible_state
        else ok (evidence_of turn rows))
unfolding collect_items add_item any select
collect_items-evidence_of turn [] = refl
collect_items-evidence_of turn (row ∷ rows) = ground (arith, collect_items-evidence_of turn rows)
