-- ===== src/State/Transitions.antt =====
-- crates/core/src/state.rs: the steps that the handlers of messages share.
use worktree_merge_consensus.Prelude.{
  ℕ, ◌+◌, ◌%◌, ◌^◌, String, some, ltb, if◌then◌else◌, nat_eq, string_eq, option_eq,
}
use worktree_merge_consensus.Prelude.Results.{ok, guard}
use worktree_merge_consensus.Protocol.{message_phase_eq}
use worktree_merge_consensus.State.Defs.{
  Phase, NextAction, RunStatus, RunState, phase_eq, action_eq,
}
use worktree_merge_consensus.State.Exec.{Exec, lift, ◌>>◌, plan_not_approved}
use worktree_merge_consensus.State.Requirements.{require_running, require_phase}

-- `round += 1` on a `u32`, and `saturating_add(1)` on a `u8`.
abbrev pub increment : ℕ → ℕ
increment n = (n + 1) % 2 ^ 32

abbrev pub saturating_increment : ℕ → ℕ
saturating_increment n = if ltb n 255 then n + 1 else n

-- Writes the state and returns its `next_action`.
abbrev pub become : RunState → Exec NextAction
become t s = (ok t.next_action, t)

unfoldable pub blocked_state : String → RunState → RunState
blocked_state reason s = record s {
  status = RunStatus.blocked;
  phase = Phase.blocked;
  reason_code = some reason;
  next_action = NextAction.stop;
}

unfoldable pub block : String → Exec NextAction
unfolding blocked_state
block reason s = become (blocked_state reason s) s

unfoldable pub request_integration : Exec NextAction
request_integration s =
    (do
      lift (require_running s)
      lift (require_phase s Phase.plan_review)
      lift (guard plan_not_approved s.plan_approved)
      become (record s {
        phase = Phase.integrate;
        next_action = NextAction.request_primary_integration;
      }))
      s
