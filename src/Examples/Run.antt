-- ===== src/Examples/Run.antt =====
-- One run, from its start to acceptance, by the operations of the state machine.
use worktree_merge_consensus.Prelude.{
  ℕ, Bool, true, String, Option, none, some, List, [], ◌∷◌, ◌≡◌, ◌&&◌, arith,
}
use worktree_merge_consensus.Prelude.Results.{ok}
use worktree_merge_consensus.Json.{
  Value, number, string, array, object, pos_int, nil, cons, end, field,
}
use worktree_merge_consensus.Protocol.{MessageType, MessagePhase, ProtocolMessage, protocol_v1}
use worktree_merge_consensus.State.Defs.{RunFacts, RunState, PathBuf, root_dir, normal, new}
use worktree_merge_consensus.State.Operations.{
  Operation, preparing, configuring, delivering, accepting, blocking, perform, is_allowed, Reach,
  start, next,
}
use worktree_merge_consensus.Examples.Wire.{example_codec, digest_text}

abbrev pub primary_sha : String
primary_sha = "1111111111111111111111111111111111111111"

abbrev pub reviewer_sha : String
reviewer_sha = "2222222222222222222222222222222222222222"

abbrev pub integration_sha : String
integration_sha = "3333333333333333333333333333333333333333"

abbrev pub facts : RunFacts
facts = record {
  run_id = 7;
  primary_thread_id = "primary";
  reviewer_thread_id = "reviewer";
  primary_worktree = root_dir ∷ normal "primary" ∷ [];
  reviewer_worktree = root_dir ∷ normal "reviewer" ∷ [];
  git_common_dir = root_dir ∷ normal "git" ∷ [];
  primary_sha = primary_sha;
  reviewer_sha = reviewer_sha;
  primary_ref = none;
  reviewer_ref = none;
}

-- A message of the run; the revision and the integration are given as its type wants them.
abbrev message :
    MessageType
    → MessagePhase
    → ℕ
    → Option ℕ
    → Option String
    → Option String
    → Value
    → ProtocolMessage
message type phase round revision sha reason payload = record {
  envelope = record {
    protocol = protocol_v1;
    run_id = 7;
    message_type = type;
    phase = phase;
    round = round;
    primary_sha = primary_sha;
    reviewer_sha = reviewer_sha;
    plan_revision = revision;
    integration_branch = elim sha [ none ↦ none | some _ ↦ some "consensus/7" ];
    integration_sha = sha;
    reason_code = reason;
  };
  payload = payload;
}

abbrev commands : Value
commands = array (cons (string " cargo test ") nil)

abbrev pub contract_ready : ProtocolMessage
contract_ready =
    message MessageType.contract_ready MessagePhase.contract 1 none none none
      (object (field "contract" (object (field "tests" commands end)) end))

abbrev pub plan_ready : ℕ → ProtocolMessage
plan_ready n = message MessageType.plan_ready MessagePhase.plan_review n (some n) none none (
    object (
      field "coverage_matrix" (array nil) (
        field "plan" (object end) (
          field "primary_contract" (object end)
            (field "reviewer_contract" (object end) (field "test_commands" commands end))))))

abbrev pub plan_changes : ℕ → ProtocolMessage
plan_changes n =
    message MessageType.changes_required MessagePhase.plan_review n (some n) none
      (some "MISSING_CASE") (object (field "issue_ids" (array (cons (string "A") nil)) end))

abbrev pub approved_plan : ℕ → ProtocolMessage
approved_plan n = message MessageType.approved_plan MessagePhase.plan_review n (some n) none none (
    object (
      field "approved_plan_hash" (string digest_text) (
        field "approved_plan_revision" (number (pos_int n)) (
          field "approved_primary_sha" (string primary_sha) (
            field "approved_reviewer_sha" (string reviewer_sha)
              (field "uncovered_items" (array nil) end))))))

abbrev pub integration_ready : ProtocolMessage
integration_ready =
    message MessageType.integration_ready MessagePhase.integrate 1 (some 1) (some integration_sha)
      none (object end)

abbrev pub verified : ℕ → ProtocolMessage
verified code =
    message MessageType.integration_ready MessagePhase.verify 1 (some 1) (some integration_sha) none
      (object (
        field "test_evidence"
          (array (
            cons
              (object (
                field "command" (string "cargo test") (
                  field "cwd" (string "clone") (
                    field "exit_code" (number (pos_int code))
                      (field "item_id" (string "item") (field "turn_id" (string "turn") end))))))
              nil))
          end))

abbrev pub approved_result : ProtocolMessage
approved_result =
    message MessageType.approved_result MessagePhase.result_review 1 (some 1) (some integration_sha)
      none
      (object (
        field "approved_integration_branch" (string "consensus/7") (
          field "approved_integration_sha" (string integration_sha) (
            field "approved_plan_revision" (number (pos_int 1)) (
              field "approved_primary_sha" (string primary_sha) (
                field "approved_reviewer_sha" (string reviewer_sha)
                  (field "uncovered_items" (array nil) end)))))))

-- The states that operations reach, the last operation first.
unfoldable pub after : List Operation → RunState
after [] = new facts
after (op ∷ ops) = perform example_codec op (after ops)

abbrev pub configured : List Operation
configured = configuring "consensus/7" [] ∷ []

abbrev pub planned : List Operation
planned =
    delivering (plan_ready 1) ∷ delivering contract_ready ∷ delivering contract_ready ∷ configured

abbrev pub integrated : List Operation
integrated = delivering integration_ready ∷ delivering (approved_plan 1) ∷ planned

abbrev pub workspace : ℕ → String → PathBuf
workspace run_id sha = root_dir ∷ normal sha ∷ []

-- The workspace of the verification is on record.
abbrev pub prepared : List Operation
prepared = preparing workspace (ok (workspace 7 integration_sha)) ∷ integrated

abbrev pub reviewed : List Operation
reviewed = delivering (verified 0) ∷ prepared

abbrev pub approved : List Operation
approved = delivering approved_result ∷ reviewed

abbrev pub accepted_history : List Operation
accepted_history = accepting ∷ approved

-- Blocked while the integration is awaited.
abbrev pub stopped : List Operation
stopped = blocking "INVALID_RESPONSE" ∷ delivering (approved_plan 1) ∷ planned

abbrev pub all_allowed : List Operation → Bool
all_allowed [] = true
all_allowed (op ∷ ops) = is_allowed op (after ops) && all_allowed ops

-- Operations that are allowed one after the other reach their state.
pub reached :
    (ops : List Operation) → all_allowed ops ≡ true → Reach example_codec facts (after ops)
unfolding after
reached [] h = start
reached (op ∷ ops) h = next op (ground arith) (reached ops (ground arith))
