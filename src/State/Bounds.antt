-- ===== src/State/Bounds.antt =====
-- crates/core/src/state.rs: the bounds of a run's counters, the round, the plan's revision and the
-- streak of unchanged reviews. The children prove that every operation keeps them.
pub mod Messages
pub mod Reached
use worktree_merge_consensus.Prelude.{ℕ, ◌≤◌, ◌≡◌, ◌≢◌, ◌⊎◌, Option, none, some}
use worktree_merge_consensus.State.Defs.{RunState}

-- The revision, 0 for none.
abbrev pub revision : Option ℕ → ℕ
revision none = 0
revision (some v) = v

-- The limits are the defaults; the round stands between 1 and its limit, and so does the revision of
-- the plan, which is the round itself until there is an integration; a review on record has a streak.
pub record IsBounded (s : RunState) : Type 0 where
  pub limit : s.max_review_rounds ≡ 6
  pub patience : s.no_progress_rounds ≡ 2
  pub started : 1 ≤ s.round
  pub within : s.round ≤ 6
  pub revised : revision s.plan_revision ≤ 6
  pub aligned :
      s.integration_sha ≡ none → (s.plan_revision ≡ none) ⊎ (s.plan_revision ≡ some s.round)
  pub reviewed : s.last_review_fingerprint ≢ none → 1 ≤ s.unchanged_review_streak
