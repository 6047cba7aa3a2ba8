-- ===== src/State/Freshness.antt =====
-- crates/core/src/state.rs: a message that a run takes is of its present round, not an old one.
use worktree_merge_consensus.Prelude.{◌≡◌, ◌≢◌, refl, arith, true, subst, eqb_sound}
use worktree_merge_consensus.Prelude.Results.{ok, is_ok}
use worktree_merge_consensus.Protocol.{MessageType, ProtocolMessage}
use worktree_merge_consensus.State.Defs.{RunState, Codec, Phase, Phase-discrete}
use worktree_merge_consensus.State.Requirements.{verify_blocked_envelope}
use worktree_merge_consensus.State.Requirements.Facts.{
  Binds, require_phase-ok, require_round-ok, require_plan_revision-ok,
  require_current_integration-ok,
}
use worktree_merge_consensus.State.Planning.{apply_contract, apply_plan, apply_plan_approval}
use worktree_merge_consensus.State.Integration.{
  apply_integration, record_verification, apply_result_approval,
}
use worktree_merge_consensus.State.Review.{apply_changes_required}
use worktree_merge_consensus.State.Messages.{
  apply_blocked, dispatch, revalidate_message, apply_message,
}
use worktree_merge_consensus.State.Soundness.{is_integrated}
use worktree_merge_consensus.State.Approvals.{taken_parts}

-- The message is of the round and the plan revision of the run, a contract's aside, and once there is
-- an integration to verify or to review it names the one of the run.
abbrev pub IsCurrent : RunState → MessageType → ProtocolMessage → Type 0
IsCurrent s type m =
    (type ≢ MessageType.contract_ready
      → (m.envelope.round ≡ s.round) × (m.envelope.plan_revision ≡ s.plan_revision))
    × (is_integrated s.phase ≡ true → m.envelope.integration_sha ≡ s.integration_sha)

module _ (c : Codec) (s : RunState) (m : ProtocolMessage) where
  apply_contract-IsCurrent :
      is_ok (apply_contract c m s).0 ≡ true → IsCurrent s MessageType.contract_ready m
  unfolding apply_contract
  apply_contract-IsCurrent h =
      (λ n. absurd (n refl), λ i. ground (arith, require_phase-ok s Phase.contract))

  apply_plan-IsCurrent : is_ok (apply_plan c m s).0 ≡ true → IsCurrent s MessageType.plan_ready m
  unfolding apply_plan
  apply_plan-IsCurrent h = ground (
    arith,
    require_phase-ok s Phase.plan_review,
    require_round-ok m s.round,
    require_plan_revision-ok s m,
  )

  apply_plan_approval-IsCurrent :
      is_ok (apply_plan_approval m s).0 ≡ true → IsCurrent s MessageType.approved_plan m
  unfolding apply_plan_approval
  apply_plan_approval-IsCurrent h = ground (
    arith,
    require_phase-ok s Phase.plan_review,
    require_round-ok m s.round,
    require_plan_revision-ok s m,
  )

  apply_integration-IsCurrent :
      is_ok (apply_integration c m s).0 ≡ true → IsCurrent s MessageType.integration_ready m
  unfolding apply_integration record_verification
  apply_integration-IsCurrent h = ground (
    arith,
    eqb_sound Phase-discrete s.phase Phase.integrate,
    eqb_sound Phase-discrete s.phase Phase.verify,
    require_round-ok m s.round,
    require_plan_revision-ok s m,
    require_current_integration-ok s m,
  )

  apply_changes_required-IsCurrent :
      is_ok (apply_changes_required c m s).0 ≡ true → IsCurrent s MessageType.changes_required m
  unfolding apply_changes_required
  apply_changes_required-IsCurrent h = ground (
    arith,
    eqb_sound Phase-discrete s.phase Phase.plan_review,
    eqb_sound Phase-discrete s.phase Phase.result_review,
    require_round-ok m s.round,
    require_plan_revision-ok s m,
    require_current_integration-ok s m,
  )

  apply_result_approval-IsCurrent :
      is_ok (apply_result_approval m s).0 ≡ true → IsCurrent s MessageType.approved_result m
  unfolding apply_result_approval
  apply_result_approval-IsCurrent h = ground (
    arith,
    require_round-ok m s.round,
    require_plan_revision-ok s m,
    require_current_integration-ok s m,
  )

  apply_blocked-IsCurrent : is_ok (apply_blocked m s).0 ≡ true → IsCurrent s MessageType.blocked m
  unfolding apply_blocked verify_blocked_envelope
  apply_blocked-IsCurrent h = ground (
    arith,
    require_round-ok m s.round,
    require_plan_revision-ok s m,
    require_current_integration-ok s m,
  )

  dispatch-IsCurrent :
      (type : MessageType) → is_ok (dispatch c type m s).0 ≡ true → IsCurrent s type m
  unfolding dispatch
  dispatch-IsCurrent MessageType.contract_ready h = apply_contract-IsCurrent h
  dispatch-IsCurrent MessageType.plan_ready h = apply_plan-IsCurrent h
  dispatch-IsCurrent MessageType.changes_required h = apply_changes_required-IsCurrent h
  dispatch-IsCurrent MessageType.approved_plan h = apply_plan_approval-IsCurrent h
  dispatch-IsCurrent MessageType.integration_ready h = apply_integration-IsCurrent h
  dispatch-IsCurrent MessageType.approved_result h = apply_result_approval-IsCurrent h
  dispatch-IsCurrent MessageType.blocked h = apply_blocked-IsCurrent h

  -- A message that a run takes, read as `m`, names the run and its frozen sources; it is of the round
  -- and the plan revision of the run, a CONTRACT_READY aside; and in the phases VERIFY and
  -- RESULT_REVIEW it names the integration SHA of the run.
  pub apply_message-IsCurrent :
      (raw : ProtocolMessage)
      → revalidate_message c raw ≡ ok m
      → is_ok (apply_message c raw s).0 ≡ true
      → Binds s.facts m × IsCurrent s m.envelope.message_type m
  apply_message-IsCurrent raw read taken =
      let (binds, run) = taken_parts c s raw m read taken in
      (binds, dispatch-IsCurrent m.envelope.message_type (subst (λ r. is_ok r.0 ≡ true) run taken))
