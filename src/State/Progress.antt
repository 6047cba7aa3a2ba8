-- ===== src/State/Progress.antt =====
-- crates/core/src/state.rs: a run comes to an end. Each message that it takes blocks it, changes
-- nothing, or lowers the budget of messages that is left to it.
pub mod Turns
use worktree_merge_consensus.Prelude.{
  ℕ, ◌+◌, ◌-◌, ◌*◌, ◌<◌, ◌≤◌, ◌≡◌, ◌⊎◌, inl, inr, none, some, is_none, Option, arith, refl, true,
  false, String, Bool, eqb_sound, eqb_complete, if◌then◌else◌, ◌==◌,
}
use worktree_merge_consensus.Prelude.Results.{Result, ok, err, is_ok}
use worktree_merge_consensus.Protocol.{MessageType, ProtocolMessage}
use worktree_merge_consensus.State.Defs.{
  RunState, RunFacts, Codec, NextAction, Phase, RunStatus, Phase-discrete, RunStatus-discrete,
  NextAction-discrete, action_eq,
}
use worktree_merge_consensus.State.Exec.{Code}
use worktree_merge_consensus.State.Exec.Keeps.{bind-satisfies}
use worktree_merge_consensus.State.Requirements.{
  require_running, require_phase, verify_immutable_envelope,
}
use worktree_merge_consensus.State.Requirements.Facts.{
  require_running-ok, require_phase-ok, require_current_integration-ok,
}
use worktree_merge_consensus.State.Persisted.{lacks_integration}
use worktree_merge_consensus.State.Planning.{apply_contract, apply_plan, apply_plan_approval}
use worktree_merge_consensus.State.Integration.{apply_integration, apply_result_approval}
use worktree_merge_consensus.State.Review.{apply_changes_required}
use worktree_merge_consensus.State.Messages.{
  apply_blocked, dispatch, revalidate_message, apply_message,
}
use worktree_merge_consensus.State.Soundness.{IsSound}
use worktree_merge_consensus.State.Bounds.{IsBounded}

-- What the action that is pending adds within a phase: 1 before the first of two messages.
abbrev pending : NextAction → ℕ
pending NextAction.request_primary_contract = 1
pending NextAction.request_primary_plan = 1
pending NextAction.request_reviewer_result_verdict = 1
pending _ = 0

-- Two messages a round for the plan, then four a round for the integration, its verification and
-- its review, six rounds each.
abbrev budget_at : Phase → NextAction → Bool → ℕ → ℕ
budget_at Phase.contract action unintegrated round = 37 + pending action
budget_at Phase.plan_review action unintegrated round = 25 + 2 * (6 - round) + pending action
budget_at Phase.integrate action true round = 24
budget_at Phase.integrate action false round = 4 * (6 - round) + 3
budget_at Phase.verify action unintegrated round = 4 * (6 - round) + 2
budget_at Phase.result_review action unintegrated round = 4 * (6 - round) + pending action
budget_at _ action unintegrated round = 0

abbrev pub budget : RunState → ℕ
budget s = budget_at s.phase s.next_action (is_none s.integration_sha) s.round

abbrev pub Advances : RunState → Result Code NextAction × RunState → Type 0
Advances s r =
    is_ok r.0 ≡ true → (r.1.status ≡ RunStatus.blocked) ⊎ (budget r.1 < budget s) ⊎ (r.1 ≡ s)

module _ (c : Codec) (m : ProtocolMessage) (s : RunState) (v : IsSound s) (b : IsBounded s) where
  apply_contract-Advances : Advances s (apply_contract c m s)
  unfolding apply_contract
  apply_contract-Advances h = ground (arith, require_phase-ok s Phase.contract)

  apply_plan-Advances : Advances s (apply_plan c m s)
  unfolding apply_plan
  apply_plan-Advances h = ground (
    arith,
    require_phase-ok s Phase.plan_review,
    eqb_sound NextAction-discrete s.next_action NextAction.request_primary_plan,
  )

  apply_plan_approval-Advances : Advances s (apply_plan_approval m s)
  unfolding apply_plan_approval
  apply_plan_approval-Advances h = ground (arith, require_phase-ok s Phase.plan_review)

  apply_integration-Advances : Advances s (apply_integration c m s)
  unfolding apply_integration lacks_integration
  apply_integration-Advances h = ground (
    arith,
    eqb_sound Phase-discrete s.phase Phase.integrate,
    eqb_sound Phase-discrete s.phase Phase.verify,
  )

  apply_changes_required-Advances : Advances s (apply_changes_required c m s)
  unfolding apply_changes_required lacks_integration
  apply_changes_required-Advances h = ground (
    arith,
    eqb_sound Phase-discrete s.phase Phase.plan_review,
    eqb_sound Phase-discrete s.phase Phase.result_review,
  )

  apply_result_approval-Advances : Advances s (apply_result_approval m s)
  unfolding apply_result_approval
  apply_result_approval-Advances h =
      ground (arith, require_phase-ok s Phase.result_review, require_current_integration-ok s m)

  apply_blocked-Advances : Advances s (apply_blocked m s)
  unfolding apply_blocked
  apply_blocked-Advances h = ground arith

  dispatch-Advances : (type : MessageType) → Advances s (dispatch c type m s)
  unfolding dispatch
  dispatch-Advances MessageType.contract_ready = apply_contract-Advances
  dispatch-Advances MessageType.plan_ready = apply_plan-Advances
  dispatch-Advances MessageType.changes_required = apply_changes_required-Advances
  dispatch-Advances MessageType.approved_plan = apply_plan_approval-Advances
  dispatch-Advances MessageType.integration_ready = apply_integration-Advances
  dispatch-Advances MessageType.approved_result = apply_result_approval-Advances
  dispatch-Advances MessageType.blocked = apply_blocked-Advances

refused-Advances : (s : RunState) (e : Code) → Advances s (err e, s)
refused-Advances s e h = absurd (ground arith)

-- A message that a sound and bounded run takes blocks it, lowers its budget, or changes nothing.
pub apply_message-Advances :
    (c : Codec) (m : ProtocolMessage) (s : RunState)
    → IsSound s
    → IsBounded s
    → Advances s (apply_message c m s)
unfolding apply_message
apply_message-Advances c m s v b =
    bind-satisfies (Advances s) (require_running s) _ s (refused-Advances s) λ _ _.
      bind-satisfies (Advances s) (revalidate_message c m) _ s (refused-Advances s) λ m' _.
        bind-satisfies (Advances s) (verify_immutable_envelope s m') _ s (refused-Advances s)
          λ _ _. dispatch-Advances c m' s v b m'.envelope.message_type
