-- ===== src/State/Feedback.antt =====
-- crates/core/src/state.rs: the feedback that a rejected review leaves, and the fingerprint by which
-- a review without progress is known.

use worktree_merge_consensus.Prelude.{
  String, Option, none, some, List, [], ◌∷◌, map, if◌then◌else◌, ◌==◌, string_eq,
}
use worktree_merge_consensus.Text.{is_empty, trim}
use worktree_merge_consensus.Json.{
  Value, null, string, array, object, end, field, nil, get, as_array, as_str, from_list,
}
use worktree_merge_consensus.Json.Canonical.{str_ltb, canonical_json_hash}
use worktree_merge_consensus.State.Defs.{RunState, Codec}
use worktree_merge_consensus.State.Evidence.{and_then}

abbrev pub machine_verification_summary : String
machine_verification_summary =
    "One or more frozen verification commands failed. Correct only the reported failures on the existing integration branch, then return a new integration result for isolated verification."

abbrev unwrap_or : Option Value → Value → Value
unwrap_or none d = d
unwrap_or (some v) d = v

-- The `json!` object of a failed verification, its entries in key order.
unfoldable pub machine_feedback : Value → Value
machine_feedback payload = object (
    field "failed_tests" (unwrap_or (get payload "verification_failures") (array nil)) (
      field "format" (string "machine_verification") (
        field "summary" (string machine_verification_summary) (
          field "verification_summary" (unwrap_or (get payload "verification_summary") null) end))))

-- `filter_map(Value::as_str).map(str::trim).filter(nonempty)`
unfoldable pub issue_names : List Value → List String
issue_names [] = []
issue_names (v ∷ vs) = elim (as_str v) [
  | none ↦ issue_names vs
  | some s ↦ if is_empty (trim s) then issue_names vs else trim s ∷ issue_names vs
]

-- `sort_unstable` and `dedup`: the equal neighbours of a list in order, once.
unfoldable pub insert_issue : String → List String → List String
insert_issue s [] = s ∷ []
insert_issue s (t ∷ ts) = if str_ltb t s then t ∷ insert_issue s ts else s ∷ t ∷ ts

unfoldable pub sort_issues : List String → List String
unfolding insert_issue
sort_issues [] = []
sort_issues (s ∷ ss) = insert_issue s (sort_issues ss)

unfoldable pub dedup_after : String → List String → List String
dedup_after s [] = []
dedup_after s (t ∷ ts) = if s == t then dedup_after s ts else t ∷ dedup_after t ts

unfoldable pub dedup : List String → List String
unfolding dedup_after
dedup [] = []
dedup (s ∷ ss) = s ∷ dedup_after s ss

unfoldable pub normalized_issues : List Value → List String
unfolding issue_names sort_issues dedup
normalized_issues issue_ids = dedup (sort_issues (issue_names issue_ids))

module _ (c : Codec) where
  unfoldable pub normalized_issue_hash : Value → String
  unfolding canonical_json_hash normalized_issues
  normalized_issue_hash payload = elim (and_then (get payload "issue_ids") as_array) [
    | some issue_ids ↦
        canonical_json_hash c.digest (array (from_list (map string (normalized_issues issue_ids))))
    | none ↦ canonical_json_hash c.digest payload
  ]

  plan_value : Option String → Value
  plan_value none = null
  plan_value (some hash) = string hash

  -- The fingerprint of a review: the plan under review and the issues raised.
  unfoldable pub review_fingerprint : RunState → Value → String
  unfolding normalized_issue_hash plan_value
  review_fingerprint s payload = canonical_json_hash c.digest (
      object (
        field "issues" (string (normalized_issue_hash payload))
          (field "plan" (plan_value s.current_plan_hash) end)))
