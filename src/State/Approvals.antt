-- ===== src/State/Approvals.antt =====
-- crates/core/src/state.rs with crates/core/src/protocol.rs: an approval that a run takes is of
-- exactly what the run holds, in the envelope and in what the payload says.
use worktree_merge_consensus.Prelude.{
  ◌≡◌, ◌∙◌, arith, true, some, String-discrete, Option-discrete, eqb_sound, inl, inr, Option-cases,
}
use native.Mathlib.Decide.{ℕ_discrete}
use worktree_merge_consensus.Prelude.Results.{ok, is_ok, Result-cases}
use worktree_merge_consensus.Json.{Fields, get, get_field, as_str, as_u64}
use worktree_merge_consensus.Protocol.{MessageType, ProtocolMessage}
use worktree_merge_consensus.Protocol.Invariants.{validate_invariants, and_then}
use worktree_merge_consensus.Protocol.Approvals.{
  Repeats, validate_result_approval-ok, validate_plan_approval-ok, validate_invariants-ok,
}
use worktree_merge_consensus.Protocol.Reading.{validate_message}
use worktree_merge_consensus.State.Defs.{RunState, Codec, Phase, NextAction}
use worktree_merge_consensus.State.Evidence
use worktree_merge_consensus.State.Requirements.{
  require_round, require_plan_revision, verify_immutable_envelope,
}
use worktree_merge_consensus.State.Requirements.Facts.{
  Binds, require_current_integration-ok, verify_immutable_envelope-ok,
}
use worktree_merge_consensus.State.Planning.{apply_plan_approval}
use worktree_merge_consensus.State.Integration.{apply_result_approval}
use worktree_merge_consensus.State.Messages.{dispatch, revalidate_message, apply_message}

revalidate_message-ok :
    (c : Codec) (raw m : ProtocolMessage)
    → revalidate_message c raw ≡ ok m
    → validate_invariants m ≡ ok tt
unfolding revalidate_message validate_message
revalidate_message-ok c raw m h = ground arith

-- What a delivery that is taken passed on its way to its handler.
pub taken_parts :
    (c : Codec) (s : RunState) (raw m : ProtocolMessage)
    → revalidate_message c raw ≡ ok m
    → is_ok (apply_message c raw s).0 ≡ true
    → Binds s.facts m × (apply_message c raw s ≡ dispatch c m.envelope.message_type m s)
unfolding apply_message
taken_parts c s raw m h taken = elim (Result-cases (verify_immutable_envelope s m)) [
  | inl (u, e) ↦ (verify_immutable_envelope-ok s m e, ground arith)
  | inr (e, lost) ↦ absurd (ground arith)
]

-- The plan approved is the one on record: its hash, its revision and its round.
apply_plan_approval-exact :
    (s : RunState) (m : ProtocolMessage)
    → is_ok (apply_plan_approval m s).0 ≡ true
    → (Evidence.and_then (get m.payload "approved_plan_hash") as_str ≡ s.current_plan_hash)
      × (m.envelope.plan_revision ≡ s.plan_revision)
      × (m.envelope.round ≡ s.round)
      × ((apply_plan_approval m s).1.plan_approved ≡ true)
      × ((apply_plan_approval m s).1.phase ≡ Phase.integrate)
unfolding apply_plan_approval require_round require_plan_revision
apply_plan_approval-exact s m taken = (
  elim (Option-cases (Evidence.and_then (get m.payload "approved_plan_hash") as_str)) [
    | inl missing ↦ absurd (ground arith)
    | inr (hash, found) ↦
        ground (arith, eqb_sound (Option-discrete String-discrete) s.current_plan_hash (some hash))
  ],
  ground (arith, eqb_sound (Option-discrete ℕ_discrete) m.envelope.plan_revision s.plan_revision),
  ground (arith, eqb_sound ℕ_discrete m.envelope.round s.round),
  ground arith,
  ground arith,
)

apply_result_approval-exact :
    (s : RunState) (m : ProtocolMessage)
    → is_ok (apply_result_approval m s).0 ≡ true
    → (m.envelope.integration_branch ≡ s.integration_branch)
      × (m.envelope.integration_sha ≡ s.integration_sha)
      × ((apply_result_approval m s).1.result_approved_sha ≡ s.integration_sha)
      × ((apply_result_approval m s).1.next_action ≡ NextAction.revalidate_and_accept)
unfolding apply_result_approval
apply_result_approval-exact s m taken = ground (arith, require_current_integration-ok s m)

-- Of the message read, `m`: the payload and the run that it leaves, `t`, agree with the run before it.
module _ (c : Codec) (s : RunState) (raw m : ProtocolMessage) where
  -- An APPROVED_RESULT that a run takes approves, in its payload too, the sources, the branch and the
  -- SHA that the run holds, and the run records that SHA as approved and waits for its revalidation.
  pub approved_result-exact :
      revalidate_message c raw ≡ ok m
      → m.envelope.message_type ≡ MessageType.approved_result
      → is_ok (apply_message c raw s).0 ≡ true
      → (payload : Fields) × Repeats m payload
        × Binds s.facts m
        × (and_then (get_field "approved_integration_branch" payload) as_str ≡ s.integration_branch)
        × (and_then (get_field "approved_integration_sha" payload) as_str ≡ s.integration_sha)
        × ((apply_message c raw s).1.result_approved_sha ≡ s.integration_sha)
        × ((apply_message c raw s).1.next_action ≡ NextAction.revalidate_and_accept)
  unfolding dispatch
  approved_result-exact read type taken =
      let (binds, run) = taken_parts c s raw m read taken in
      let to_handler : apply_message c raw s ≡ apply_result_approval m s =
        ground (arith, run, type) in
      let (branch, sha, approved, action) = apply_result_approval-exact s m (ground arith) in
      let (payload, repeats, _, named_branch, named_sha) =
        validate_result_approval-ok m
          ((validate_invariants-ok m (revalidate_message-ok c raw m read)).1 type) in
      (
        payload,
        repeats,
        binds,
        named_branch ∙ branch,
        named_sha ∙ sha,
        rw to_handler approved,
        rw to_handler action,
      )

  -- An APPROVED_PLAN that a run takes approves, in its payload, the sources, the revision and the hash
  -- of the plan that the run holds; the run records the approval and goes on to the integration.
  pub approved_plan-exact :
      revalidate_message c raw ≡ ok m
      → m.envelope.message_type ≡ MessageType.approved_plan
      → is_ok (apply_message c raw s).0 ≡ true
      → (payload : Fields) × Repeats m payload
        × Binds s.facts m
        × (and_then (get_field "approved_plan_revision" payload) as_u64 ≡ s.plan_revision)
        × (Evidence.and_then (get m.payload "approved_plan_hash") as_str ≡ s.current_plan_hash)
        × (m.envelope.round ≡ s.round)
        × ((apply_message c raw s).1.plan_approved ≡ true)
        × ((apply_message c raw s).1.phase ≡ Phase.integrate)
  unfolding dispatch
  approved_plan-exact read type taken =
      let (binds, run) = taken_parts c s raw m read taken in
      let to_handler : apply_message c raw s ≡ apply_plan_approval m s =
        ground (arith, run, type) in
      let (hash, revision, round, approved, phase) = apply_plan_approval-exact s m (ground arith) in
      let (payload, repeats, _, _) =
        validate_plan_approval-ok m
          ((validate_invariants-ok m (revalidate_message-ok c raw m read)).0 type) in
      (
        payload,
        repeats,
        binds,
        repeats.revision ∙ revision,
        hash,
        round,
        rw to_handler approved,
        rw to_handler phase,
      )
