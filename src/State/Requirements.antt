-- ===== src/State/Requirements.antt =====
-- crates/core/src/state.rs: the checks of a message against the state (`require_*`, `verify_*`).
pub mod Facts
use worktree_merge_consensus.Prelude.{
  ℕ, ◌&&◌, none, some, is_none, ◌==◌, nat_eq, string_eq, option_eq,
}
use worktree_merge_consensus.Prelude.Results.{◌>>◌, guard}
use worktree_merge_consensus.Protocol.{ProtocolMessage, message_phase_eq}
use worktree_merge_consensus.State.Defs.{
  Phase, RunStatus, RunState, phase_eq, status_eq, message_phase,
}
use worktree_merge_consensus.State.Exec.{
  Check, run_not_active, wrong_phase, stale_round, stale_plan_revision, stale_integration_branch,
  stale_integration_sha, stale_run_id, stale_primary_sha, stale_reviewer_sha,
}

unfoldable pub require_running : RunState → Check (Unit {0})
require_running s = guard run_not_active (s.status == RunStatus.running)

unfoldable pub require_phase : RunState → Phase → Check (Unit {0})
require_phase s expected = guard wrong_phase (s.phase == expected)

unfoldable pub require_round : ProtocolMessage → ℕ → Check (Unit {0})
require_round m expected = guard stale_round (m.envelope.round == expected)

unfoldable pub require_plan_revision : RunState → ProtocolMessage → Check (Unit {0})
require_plan_revision s m = guard stale_plan_revision (m.envelope.plan_revision == s.plan_revision)

unfoldable pub require_current_integration : RunState → ProtocolMessage → Check (Unit {0})
require_current_integration s m = do
  guard stale_integration_branch (m.envelope.integration_branch == s.integration_branch)
  guard stale_integration_sha (m.envelope.integration_sha == s.integration_sha)

unfoldable pub verify_immutable_envelope : RunState → ProtocolMessage → Check (Unit {0})
verify_immutable_envelope s m = do
  guard stale_run_id (m.envelope.run_id == s.facts.run_id)
  guard stale_primary_sha (m.envelope.primary_sha == s.facts.primary_sha)
  guard stale_reviewer_sha (m.envelope.reviewer_sha == s.facts.reviewer_sha)

-- `verify_blocked_envelope`, from its last `match` on.
verify_blocked_integration : RunState → ProtocolMessage → Check (Unit {0})
unfolding require_current_integration
verify_blocked_integration s m = elim s.integration_sha [
  | some sha ↦ require_current_integration s m
  | none ↦
      guard stale_integration_sha
        (is_none m.envelope.integration_branch && is_none m.envelope.integration_sha)
]

unfoldable pub verify_blocked_envelope : RunState → ProtocolMessage → Check (Unit {0})
unfolding verify_blocked_integration
verify_blocked_envelope s m = do
  guard wrong_phase (m.envelope.phase == message_phase s.phase)
  require_round m s.round
  require_plan_revision s m
  verify_blocked_integration s m
