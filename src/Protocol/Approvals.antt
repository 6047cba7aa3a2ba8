-- ===== src/Protocol/Approvals.antt =====
-- crates/core/src/protocol.rs: what an approval that passed `validate_invariants` binds. Its payload
-- repeats the envelope, so what the reviewer wrote is what the state machine compares.
use worktree_merge_consensus.Prelude.{
  inl, inr, ℕ, ◌≡◌, ◌∙◌, sym, arith, none, some, String, Option-discrete, String-discrete,
  eqb_sound,
}
use native.Mathlib.Decide.{ℕ_discrete}
use worktree_merge_consensus.Prelude.Results.{ok, Result-cases}
use worktree_merge_consensus.Json.{Value, Fields, get_field, as_object, as_str, as_u64}
use worktree_merge_consensus.Protocol.{
  MessageType, MessagePhase, Envelope, ProtocolMessage, MessagePhase-discrete,
}
use worktree_merge_consensus.Protocol.Invariants.{
  and_then, require_phase, require_u64, require_string, require_plan_revision,
  require_no_integration, require_integration_identity, payload_object, validate_plan_approval,
  validate_result_approval, validate_invariants,
}

-- The payload names the sources and the plan revision of the envelope.
pub record Repeats (m : ProtocolMessage) (payload : Fields) : Type 0 where
  pub object : as_object m.payload ≡ some payload
  pub primary :
      and_then (get_field "approved_primary_sha" payload) as_str ≡ some m.envelope.primary_sha
  pub reviewer :
      and_then (get_field "approved_reviewer_sha" payload) as_str ≡ some m.envelope.reviewer_sha
  pub revision :
      and_then (get_field "approved_plan_revision" payload) as_u64 ≡ m.envelope.plan_revision

require_string-ok :
    (payload : Fields) (key expected : String) {u : Unit {0}}
    → require_string payload key expected ≡ ok u
    → and_then (get_field key payload) as_str ≡ some expected
unfolding require_string
require_string-ok payload key expected h = ground (
  arith,
  eqb_sound (Option-discrete String-discrete) (and_then (get_field key payload) as_str)
      (some expected),
)

require_u64-ok :
    (payload : Fields) (key : String) (expected : ℕ) {u : Unit {0}}
    → require_u64 payload key expected ≡ ok u
    → and_then (get_field key payload) as_u64 ≡ some expected
unfolding require_u64
require_u64-ok payload key expected h = ground (
  arith,
  eqb_sound (Option-discrete ℕ_discrete) (and_then (get_field key payload) as_u64) (some expected),
)

require_phase-ok :
    (expected : MessagePhase) (e : Envelope) {u : Unit {0}}
    → require_phase expected e ≡ ok u
    → e.phase ≡ expected
unfolding require_phase
require_phase-ok expected e h = ground (arith, eqb_sound MessagePhase-discrete e.phase expected)

require_plan_revision-ok :
    (e : Envelope) {v : ℕ} → require_plan_revision e ≡ ok v → e.plan_revision ≡ some v
unfolding require_plan_revision
require_plan_revision-ok e h = ground arith

require_integration_identity-ok :
    (e : Envelope) {branch sha : String}
    → require_integration_identity e ≡ ok (branch, sha)
    → (e.integration_branch ≡ some branch) × (e.integration_sha ≡ some sha)
unfolding require_integration_identity
require_integration_identity-ok e h = ground arith

require_no_integration-ok :
    (e : Envelope) {u : Unit {0}}
    → require_no_integration e ≡ ok u
    → (e.integration_branch ≡ none) × (e.integration_sha ≡ none)
unfolding require_no_integration
require_no_integration-ok e h = ground arith

payload_object-ok : (v : Value) {fs : Fields} → payload_object v ≡ ok fs → as_object v ≡ some fs
unfolding payload_object
payload_object-ok v h = ground arith

-- The parts of an approval that both kinds have.
module _ (m : ProtocolMessage) (payload : Fields) (v : ℕ) where
  Repeats-parts :
      {u w x : Unit {0}}
      → payload_object m.payload ≡ ok payload
      → require_plan_revision m.envelope ≡ ok v
      → require_u64 payload "approved_plan_revision" v ≡ ok u
      → require_string payload "approved_primary_sha" m.envelope.primary_sha ≡ ok w
      → require_string payload "approved_reviewer_sha" m.envelope.reviewer_sha ≡ ok x
      → Repeats m payload
  Repeats-parts o r u p q = record {
    object = payload_object-ok m.payload o;
    primary = require_string-ok payload "approved_primary_sha" m.envelope.primary_sha p;
    reviewer = require_string-ok payload "approved_reviewer_sha" m.envelope.reviewer_sha q;
    revision =
        require_u64-ok payload "approved_plan_revision" v u
        ∙ sym (require_plan_revision-ok m.envelope r);
  }

pub validate_result_approval-ok :
    (m : ProtocolMessage) {u : Unit {0}}
    → validate_result_approval m ≡ ok u
    → (payload : Fields) × Repeats m payload
      × (m.envelope.phase ≡ MessagePhase.result_review)
      × (and_then (get_field "approved_integration_branch" payload) as_str
          ≡ m.envelope.integration_branch)
      × (and_then (get_field "approved_integration_sha" payload) as_str
          ≡ m.envelope.integration_sha)
unfolding validate_result_approval
validate_result_approval-ok m h = elim (Result-cases (payload_object m.payload)) [
  | inl (payload, o) ↦ elim (Result-cases (require_plan_revision m.envelope)) [
    | inl (v, r) ↦ elim (Result-cases (require_integration_identity m.envelope)) [
      | inl ((branch, sha), i) ↦
          let (held_branch, held_sha) = require_integration_identity-ok m.envelope i in
          (
            payload,
            ground (arith, Repeats-parts m payload v o r),
            ground (arith, require_phase-ok MessagePhase.result_review m.envelope),
            ground (arith, require_string-ok payload "approved_integration_branch" branch),
            ground (arith, require_string-ok payload "approved_integration_sha" sha),
          )
      | inr (e, lost) ↦ absurd (ground arith)
    ]
    | inr (e, lost) ↦ absurd (ground arith)
  ]
  | inr (e, lost) ↦ absurd (ground arith)
]

pub validate_plan_approval-ok :
    (m : ProtocolMessage) {u : Unit {0}}
    → validate_plan_approval m ≡ ok u
    → (payload : Fields) × Repeats m payload
      × (m.envelope.phase ≡ MessagePhase.plan_review)
      × (m.envelope.integration_sha ≡ none)
unfolding validate_plan_approval
validate_plan_approval-ok m h = elim (Result-cases (payload_object m.payload)) [
  | inl (payload, o) ↦ elim (Result-cases (require_plan_revision m.envelope)) [
    | inl (v, r) ↦ (
      payload,
      ground (arith, Repeats-parts m payload v o r),
      ground (arith, require_phase-ok MessagePhase.plan_review m.envelope),
      ground (arith, require_no_integration-ok m.envelope),
    )
    | inr (e, lost) ↦ absurd (ground arith)
  ]
  | inr (e, lost) ↦ absurd (ground arith)
]

-- A message that is read keeps the invariants of its type.
pub validate_invariants-ok :
    (m : ProtocolMessage) {u : Unit {0}}
    → validate_invariants m ≡ ok u
    → (m.envelope.message_type ≡ MessageType.approved_plan → validate_plan_approval m ≡ ok tt)
      × (m.envelope.message_type ≡ MessageType.approved_result → validate_result_approval m ≡ ok tt)
unfolding validate_invariants
validate_invariants-ok m h = (λ type. ground arith, λ type. ground arith)
