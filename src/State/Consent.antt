-- ===== src/State/Consent.antt =====
-- crates/core/src/state.rs: what a run was told. Its approvals stand on messages that were delivered
-- to it and that it took.
pub mod Reached
use worktree_merge_consensus.Prelude.{
  ◌≡◌, ◌⊎◌, inl, inr, none, some, Option, arith, refl, true, false, String, List, Bool,
  eqb_complete,
}
use worktree_merge_consensus.Prelude.Results.{Result, ok, err, is_ok}
use worktree_merge_consensus.Json.{Value}
use worktree_merge_consensus.Protocol.{MessageType, ProtocolMessage}
use worktree_merge_consensus.State.Defs.{
  RunState, RunFacts, Codec, NextAction, Phase, RunStatus, RunStatus-discrete,
}
use worktree_merge_consensus.State.Exec.{Code}
use worktree_merge_consensus.State.Exec.Keeps.{bind-satisfies}
use worktree_merge_consensus.State.Requirements.{
  require_running, require_phase, verify_immutable_envelope,
}
use worktree_merge_consensus.State.Requirements.Facts.{
  Binds, require_running-ok, verify_immutable_envelope-ok,
}
use worktree_merge_consensus.State.Planning.{
  apply_contract, apply_plan, apply_plan_approval, record_plan,
}
use worktree_merge_consensus.State.Integration.{apply_integration, apply_result_approval}
use worktree_merge_consensus.State.Review.{apply_changes_required}
use worktree_merge_consensus.State.Messages.{
  apply_blocked, dispatch, revalidate_message, apply_message,
}
use worktree_merge_consensus.State.Control.{configure_integration, accept_after_revalidation}
use worktree_merge_consensus.State.Operations.{
  Operation, configuring, delivering, recording_plan, requesting_integration, accepting, waiting,
  idling, resuming, cancelling, pausing, blocking, marking_incompatible, recording_error, retrying,
  preparing, perform, Reach, start, next,
}
use worktree_merge_consensus.State.Steering.{Steers-keeps, is_steering, perform-Steers}

-- A delivery of `raw` to `s` ended in success, and what was read is of the run and satisfies `P`.
abbrev Taken :
    Codec
    → ProtocolMessage
    → RunState
    → (ProtocolMessage → Type 0)
    → Result Code NextAction × RunState
    → Type 0
Taken c raw s P r =
    (m : ProtocolMessage) × (revalidate_message c raw ≡ ok m)
    × (is_ok r.0 ≡ true)
    × Binds s.facts m
    × P m

abbrev Takes : Codec → (ProtocolMessage → Type 0) → Operation → RunState → Type 0
Takes c P (delivering raw) s = Taken c raw s P (apply_message c raw s)
Takes c P _ s = ⊥

-- The run took such a message on its way to the state.
abbrev pub Took :
    (c : Codec) (P : ProtocolMessage → Type 0) (facts : RunFacts) (s : RunState)
    → Reach c facts s
    → Type 0
Took c P facts s start = ⊥
Took c P facts s (next op {s = t} a r) = Takes c P op t ⊎ Took c P facts t r

abbrev pub IsPlanApproval : ProtocolMessage → Type 0
IsPlanApproval m = m.envelope.message_type ≡ MessageType.approved_plan

abbrev pub IsResultApproval : String → ProtocolMessage → Type 0
IsResultApproval sha m =
    (m.envelope.message_type ≡ MessageType.approved_result)
    × (m.envelope.integration_sha ≡ some sha)

-- The approvals after a handler are those before it, or it succeeded on a message that gives them.
abbrev Grants :
    RunState → MessageType → ProtocolMessage → Result Code NextAction × RunState → Type 0
Grants s type m r =
    ((r.1.plan_approved ≡ true)
      → (s.plan_approved ≡ true) ⊎ ((is_ok r.0 ≡ true) × (type ≡ MessageType.approved_plan)))
    × ((sha : String)
        → r.1.result_approved_sha ≡ some sha
        → (s.result_approved_sha ≡ some sha)
          ⊎ ((is_ok r.0 ≡ true)
              × (type ≡ MessageType.approved_result)
              × (m.envelope.integration_sha ≡ some sha)))

module _ (c : Codec) (s : RunState) (m : ProtocolMessage) where
  apply_contract-Grants : Grants s MessageType.contract_ready m (apply_contract c m s)
  unfolding apply_contract
  apply_contract-Grants = ground arith

  apply_plan-Grants : Grants s MessageType.plan_ready m (apply_plan c m s)
  unfolding apply_plan
  apply_plan-Grants = ground arith

  apply_plan_approval-Grants :
      s.status ≡ RunStatus.running → Grants s MessageType.approved_plan m (apply_plan_approval m s)
  unfolding apply_plan_approval require_running require_phase
  apply_plan_approval-Grants run =
      ground (arith, eqb_complete RunStatus-discrete s.status RunStatus.running)

  apply_integration-Grants : Grants s MessageType.integration_ready m (apply_integration c m s)
  unfolding apply_integration
  apply_integration-Grants = ground arith

  apply_changes_required-Grants :
      Grants s MessageType.changes_required m (apply_changes_required c m s)
  unfolding apply_changes_required
  apply_changes_required-Grants = ground arith

  apply_result_approval-Grants : Grants s MessageType.approved_result m (apply_result_approval m s)
  unfolding apply_result_approval
  apply_result_approval-Grants = ground arith

  apply_blocked-Grants : Grants s MessageType.blocked m (apply_blocked m s)
  unfolding apply_blocked
  apply_blocked-Grants = ground arith

  dispatch-Grants :
      (type : MessageType) → s.status ≡ RunStatus.running → Grants s type m (dispatch c type m s)
  unfolding dispatch
  dispatch-Grants MessageType.contract_ready run = apply_contract-Grants
  dispatch-Grants MessageType.plan_ready run = apply_plan-Grants
  dispatch-Grants MessageType.changes_required run = apply_changes_required-Grants
  dispatch-Grants MessageType.approved_plan run = apply_plan_approval-Grants run
  dispatch-Grants MessageType.integration_ready run = apply_integration-Grants
  dispatch-Grants MessageType.approved_result run = apply_result_approval-Grants
  dispatch-Grants MessageType.blocked run = apply_blocked-Grants

-- The approvals after a delivery are those before it, or the message was taken and gives them.
abbrev pub Consents :
    Codec → ProtocolMessage → RunState → Result Code NextAction × RunState → Type 0
Consents c raw s r =
    ((r.1.plan_approved ≡ true) → (s.plan_approved ≡ true) ⊎ Taken c raw s IsPlanApproval r)
    × ((sha : String)
        → r.1.result_approved_sha ≡ some sha
        → (s.result_approved_sha ≡ some sha) ⊎ Taken c raw s (IsResultApproval sha) r)

module _ (c : Codec) (s : RunState) where
  Grants-Consents :
      (raw m : ProtocolMessage) (r : Result Code NextAction × RunState)
      → revalidate_message c raw ≡ ok m
      → Binds s.facts m
      → Grants s m.envelope.message_type m r
      → Consents c raw s r
  Grants-Consents raw m r read binds (plan, result) = (
    λ h. elim (plan h) [
      | inl before ↦ inl before
      | inr (passed, type) ↦ inr (m, read, passed, binds, type)
    ],
    λ sha h. elim (result sha h) [
      | inl before ↦ inl before
      | inr (passed, type, exact) ↦ inr (m, read, passed, binds, (type, exact))
    ],
  )

  refused-Consents : (raw : ProtocolMessage) (e : Code) → Consents c raw s (err e, s)
  refused-Consents raw e = (λ h. inl h, λ sha h. inl h)

  pub apply_message-Consents : (raw : ProtocolMessage) → Consents c raw s (apply_message c raw s)
  unfolding apply_message
  apply_message-Consents raw =
      bind-satisfies (Consents c raw s) (require_running s) _ s (refused-Consents raw) λ _ running.
        bind-satisfies (Consents c raw s) (revalidate_message c raw) _ s (refused-Consents raw)
          λ m read.
            bind-satisfies (Consents c raw s) (verify_immutable_envelope s m) _ s
              (refused-Consents raw)
              λ _ checked.
                Grants-Consents raw m (dispatch c m.envelope.message_type m s) read
                  (verify_immutable_envelope-ok s m checked)
                  (dispatch-Grants c s m m.envelope.message_type (require_running-ok s running))
