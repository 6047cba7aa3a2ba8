-- ===== src/Examples/Wire.antt =====
-- A concrete codec for the examples: messages and evidence as JSON objects, read back by key.
use worktree_merge_consensus.Prelude.{
  ℕ, zero, suc, String, Option, none, some, [], ◌∷◌, ◌==◌, string_eq, if◌then◌else◌,
}
use worktree_merge_consensus.Json.{
  Value, null, number, string, object, pos_int, neg_int, end, field, get, as_str, as_u64, is_object,
}
use worktree_merge_consensus.Protocol.{MessageType, MessagePhase, ProtocolMessage}
use worktree_merge_consensus.State.Defs.{Codec, TestEvidence, root_dir, normal, pos, negsuc, ℤ}

infixl 5 ◌>>=◌
abbrev ◌>>=◌ : {A B : Type 0} → Option A → (A → Option B) → Option B
none >>= f = none
some a >>= f = f a

abbrev type_code : MessageType → ℕ
type_code MessageType.contract_ready = 0
type_code MessageType.plan_ready = 1
type_code MessageType.changes_required = 2
type_code MessageType.approved_plan = 3
type_code MessageType.integration_ready = 4
type_code MessageType.approved_result = 5
type_code MessageType.blocked = 6

abbrev type_of : ℕ → Option MessageType
type_of zero = some MessageType.contract_ready
type_of (suc zero) = some MessageType.plan_ready
type_of (suc (suc zero)) = some MessageType.changes_required
type_of (suc (suc (suc zero))) = some MessageType.approved_plan
type_of (suc (suc (suc (suc zero)))) = some MessageType.integration_ready
type_of (suc (suc (suc (suc (suc zero))))) = some MessageType.approved_result
type_of (suc (suc (suc (suc (suc (suc n)))))) = some MessageType.blocked

-- The phases of the example's messages.
abbrev phase_code : MessagePhase → String
phase_code MessagePhase.contract = "CONTRACT"
phase_code MessagePhase.plan_review = "PLAN_REVIEW"
phase_code MessagePhase.integrate = "INTEGRATE"
phase_code MessagePhase.verify = "VERIFY"
phase_code MessagePhase.result_review = "RESULT_REVIEW"
phase_code MessagePhase.discover = "DISCOVER"
phase_code MessagePhase.freeze = "FREEZE"
phase_code MessagePhase.accepted = "ACCEPTED"
phase_code MessagePhase.blocked = "BLOCKED"
phase_code MessagePhase.paused_user_action = "PAUSED_USER_ACTION"
phase_code MessagePhase.cancelled = "CANCELLED"

abbrev phase_of : String → Option MessagePhase
phase_of s =
    if s == "CONTRACT"
    then some MessagePhase.contract
    else if s == "PLAN_REVIEW"
    then some MessagePhase.plan_review
    else if s == "INTEGRATE"
    then some MessagePhase.integrate
    else if s == "VERIFY"
    then some MessagePhase.verify
    else if s == "RESULT_REVIEW"
    then some MessagePhase.result_review
    else none

abbrev text_or_null : Option String → Value
text_or_null none = null
text_or_null (some s) = string s

abbrev revision_value : Option ℕ → Value
revision_value none = null
revision_value (some n) = number (pos_int n)

abbrev encode_message : ProtocolMessage → Option Value
encode_message m = some (
    object (
      field "protocol" (string m.envelope.protocol) (
        field "run_id" (number (pos_int m.envelope.run_id)) (
          field "message_type" (number (pos_int (type_code m.envelope.message_type))) (
            field "phase" (string (phase_code m.envelope.phase)) (
              field "round" (number (pos_int m.envelope.round)) (
                field "primary_sha" (string m.envelope.primary_sha) (
                  field "reviewer_sha" (string m.envelope.reviewer_sha) (
                    field "plan_revision" (revision_value m.envelope.plan_revision) (
                      field "integration_branch" (text_or_null m.envelope.integration_branch) (
                        field "integration_sha" (text_or_null m.envelope.integration_sha) (
                          field "reason_code" (text_or_null m.envelope.reason_code)
                            (field "payload" m.payload end)))))))))))))

abbrev text : Value → String → Option String
text v k = get v k >>= as_str

abbrev num : Value → String → Option ℕ
num v k = get v k >>= as_u64

abbrev decode_message : Value → Option ProtocolMessage
decode_message v = do
  protocol ← text v "protocol"
  run_id ← num v "run_id"
  code ← num v "message_type"
  message_type ← type_of code
  name ← text v "phase"
  phase ← phase_of name
  round ← num v "round"
  primary_sha ← text v "primary_sha"
  reviewer_sha ← text v "reviewer_sha"
  payload ← get v "payload"
  some (record {
    envelope = record {
      protocol = protocol;
      run_id = run_id;
      message_type = message_type;
      phase = phase;
      round = round;
      primary_sha = primary_sha;
      reviewer_sha = reviewer_sha;
      plan_revision = num v "plan_revision";
      integration_branch = text v "integration_branch";
      integration_sha = text v "integration_sha";
      reason_code = text v "reason_code";
    };
    payload = payload;
  })

abbrev read_exit_code : Value → Option ℤ
read_exit_code (number (pos_int n)) = some (pos n)
read_exit_code (number (neg_int n)) = some (negsuc n)
read_exit_code _ = none

-- The directory is one name below the root.
abbrev decode_evidence : Value → Option TestEvidence
decode_evidence v = do
  command ← text v "command"
  code ← get v "exit_code"
  exit_code ← read_exit_code code
  turn_id ← text v "turn_id"
  item_id ← text v "item_id"
  cwd ← text v "cwd"
  some (record {
    command = command;
    exit_code = exit_code;
    turn_id = turn_id;
    item_id = item_id;
    cwd = root_dir ∷ normal cwd ∷ [];
  })

abbrev pub digest_text : String
digest_text = "0123456789abcdef0123456789abcdef0123456789abcdef0123456789abcdef"

abbrev pub example_codec : Codec
example_codec = record {
  wire = record {
    schema_accepts = is_object;
    decode_message = decode_message;
    encode_message = encode_message;
  };
  digest = λ _. digest_text;
  decode_evidence = decode_evidence;
  decode_failures = λ _. none;
  encode_failures = λ _. none;
}
