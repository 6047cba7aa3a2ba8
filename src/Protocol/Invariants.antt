-- ===== src/Protocol/Invariants.antt =====
-- crates/core/src/protocol.rs: `validate_invariants` and its helpers.
use Prim.Native.Char.{code}
use Prim.Native.String.{len}
use worktree_merge_consensus.Prelude.{
  ℕ, Bool, true, false, not, ◌&&◌, ◌||◌, String, Option, none, some, any, is_nil, is_some, leb, ltb,
  ◌==◌, ◌!=◌, nat_eq, string_eq, option_eq,
}
use worktree_merge_consensus.Prelude.Results.{Result, ok, err, ◌>>=◌, ◌>>◌, guard, ok_or}
use worktree_merge_consensus.Text.{is_blank, is_empty}
use worktree_merge_consensus.Json.{
  Value, Fields, get_field, as_object, is_object, as_array, as_str, as_u64,
}
use worktree_merge_consensus.Protocol.{
  MessageType, MessagePhase, message_phase_eq, Envelope, ProtocolMessage, ProtocolError,
  protocol_v1,
}

abbrev Check : Type 0 → Type 0
Check = Result ProtocolError

abbrev invariant : Bool → Check (Unit {0})
invariant = guard ProtocolError.invariant

-- `Option::filter`
abbrev keep_if : {A : Type 0} → (A → Bool) → Option A → Option A
keep_if p none = none
keep_if p (some a) = elim (p a) [ true ↦ some a | false ↦ none ]

-- `Option::is_none_or`
abbrev pub is_none_or : {A : Type 0} → (A → Bool) → Option A → Bool
is_none_or p none = true
is_none_or p (some a) = p a

abbrev pub and_then : {A B : Type 0} → Option A → (A → Option B) → Option B
and_then none f = none
and_then (some a) f = f a

unfoldable pub require_phase : MessagePhase → Envelope → Check (Unit {0})
require_phase expected e = invariant (e.phase == expected)

unfoldable pub require_plan_revision : Envelope → Check ℕ
require_plan_revision e = ok_or (keep_if (ltb 0) e.plan_revision) ProtocolError.invariant

unfoldable pub require_no_integration : Envelope → Check (Unit {0})
require_no_integration e =
    invariant (not (is_some e.integration_branch || is_some e.integration_sha))

unfoldable pub require_integration_identity : Envelope → Check (String × String)
require_integration_identity e = do
  branch ← ok_or (keep_if (λ b. not (is_empty b)) e.integration_branch) ProtocolError.invariant
  sha ← ok_or (keep_if (λ s. not (is_empty s)) e.integration_sha) ProtocolError.invariant
  ok (branch, sha)

unfoldable pub payload_object : Value → Check Fields
payload_object v = ok_or (as_object v) ProtocolError.invariant

unfoldable pub require_u64 : Fields → String → ℕ → Check (Unit {0})
require_u64 payload key expected =
    invariant (and_then (get_field key payload) as_u64 == some expected)

unfoldable pub require_string : Fields → String → String → Check (Unit {0})
require_string payload key expected =
    invariant (and_then (get_field key payload) as_str == some expected)

unfoldable pub require_empty_array : Fields → String → Check (Unit {0})
require_empty_array payload key = elim (and_then (get_field key payload) as_array) [
  | some values ↦ invariant (is_nil values)
  | none ↦ err ProtocolError.invariant
]

-- An entry that is no text, or a text of white space only.
unfoldable pub is_blank_entry : Value → Bool
is_blank_entry v = is_none_or is_blank (as_str v)

unfoldable pub require_nonempty_string_array : Fields → String → Check (Unit {0})
require_nonempty_string_array payload key = do
  values ←
      ok_or (keep_if (λ vs. not (is_nil vs)) (and_then (get_field key payload) as_array))
        ProtocolError.invariant
  invariant (not (any is_blank_entry values))

is_hex_digit : ℕ → Bool
is_hex_digit c =
    (leb b'0' c && leb c b'9') || (leb b'a' c && leb c b'f') || (leb b'A' c && leb c b'F')

-- A byte of a character beyond ASCII is no hex digit, so the characters serve for the bytes.
all_hex : String → Bool
unfolding is_hex_digit
all_hex String.[] = true
all_hex (String.◌∷◌ c s) = is_hex_digit (code c) && all_hex s

unfoldable pub validate_plan_approval : ProtocolMessage → Check (Unit {0})
unfolding require_phase require_no_integration require_plan_revision payload_object require_u64
    require_string require_empty_array all_hex
validate_plan_approval m = do
  require_phase MessagePhase.plan_review m.envelope
  require_no_integration m.envelope
  revision ← require_plan_revision m.envelope
  payload ← payload_object m.payload
  require_u64 payload "approved_plan_revision" revision
  require_string payload "approved_primary_sha" m.envelope.primary_sha
  require_string payload "approved_reviewer_sha" m.envelope.reviewer_sha
  plan_hash ←
      ok_or (and_then (get_field "approved_plan_hash" payload) as_str) ProtocolError.invariant
  invariant (not (len plan_hash != 64 || not (all_hex plan_hash)))
  require_empty_array payload "uncovered_items"

-- `payload.get(field).is_some_and(test)`
abbrev has : (Value → Bool) → Fields → String → Bool
has test payload key = elim (get_field key payload) [ none ↦ false | some v ↦ test v ]

unfoldable pub validate_plan_ready : ProtocolMessage → Check (Unit {0})
unfolding require_phase require_no_integration require_plan_revision payload_object
    require_nonempty_string_array
validate_plan_ready m = do
  require_phase MessagePhase.plan_review m.envelope
  require_no_integration m.envelope
  require_plan_revision m.envelope
  payload ← payload_object m.payload
  invariant (has is_object payload "primary_contract")
  invariant (has is_object payload "reviewer_contract")
  invariant (has is_object payload "plan")
  invariant (has (λ v. is_some (as_array v)) payload "coverage_matrix")
  require_nonempty_string_array payload "test_commands"

unfoldable pub validate_result_approval : ProtocolMessage → Check (Unit {0})
unfolding require_phase require_plan_revision require_integration_identity payload_object
    require_u64 require_string require_empty_array
validate_result_approval m = do
  require_phase MessagePhase.result_review m.envelope
  revision ← require_plan_revision m.envelope
  identity ← require_integration_identity m.envelope
  payload ← payload_object m.payload
  require_u64 payload "approved_plan_revision" revision
  require_string payload "approved_primary_sha" m.envelope.primary_sha
  require_string payload "approved_reviewer_sha" m.envelope.reviewer_sha
  require_string payload "approved_integration_branch" identity.0
  require_string payload "approved_integration_sha" identity.1
  require_empty_array payload "uncovered_items"

unfoldable pub validate_changes_required : ProtocolMessage → Check (Unit {0})
unfolding require_plan_revision require_integration_identity require_no_integration
validate_changes_required m = do
  invariant (
      m.envelope.phase == MessagePhase.plan_review
      || m.envelope.phase == MessagePhase.result_review)
  require_plan_revision m.envelope
  invariant (not (is_none_or is_empty m.envelope.reason_code))
  elim (m.envelope.phase == MessagePhase.result_review) [
    | true ↦ require_integration_identity m.envelope >> ok tt
    | false ↦ require_no_integration m.envelope
  ]

validate_contract_ready : ProtocolMessage → Check (Unit {0})
unfolding require_phase require_no_integration payload_object require_nonempty_string_array
validate_contract_ready m = do
  require_phase MessagePhase.contract m.envelope
  require_no_integration m.envelope
  payload ← payload_object m.payload
  contract ← ok_or (and_then (get_field "contract" payload) as_object) ProtocolError.invariant
  require_nonempty_string_array contract "tests"

validate_integration_ready : ProtocolMessage → Check (Unit {0})
unfolding require_integration_identity
validate_integration_ready m = do
  invariant (m.envelope.phase == MessagePhase.integrate || m.envelope.phase == MessagePhase.verify)
  require_integration_identity m.envelope
  ok tt

validate_by_type : MessageType → ProtocolMessage → Check (Unit {0})
unfolding validate_contract_ready validate_plan_ready validate_plan_approval
    validate_integration_ready validate_result_approval validate_changes_required
validate_by_type MessageType.contract_ready m = validate_contract_ready m
validate_by_type MessageType.plan_ready m = validate_plan_ready m
validate_by_type MessageType.approved_plan m = validate_plan_approval m
validate_by_type MessageType.integration_ready m = validate_integration_ready m
validate_by_type MessageType.approved_result m = validate_result_approval m
validate_by_type MessageType.changes_required m = validate_changes_required m
validate_by_type MessageType.blocked m =
    invariant (not (is_none_or is_empty m.envelope.reason_code))

unfoldable pub validate_invariants : ProtocolMessage → Check (Unit {0})
unfolding validate_by_type
validate_invariants m = do
  invariant (m.envelope.protocol == protocol_v1)
  validate_by_type m.envelope.message_type m
