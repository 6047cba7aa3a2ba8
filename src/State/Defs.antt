-- ===== src/State/Defs.antt =====
-- crates/core/src/state.rs: the types of a run's state.
use worktree_merge_consensus.Prelude.{
  ℕ, Bool, true, false, String, Option, none, List, [], ◌∷◌, Eq, String-discrete, option_eq,
}
use native.Mathlib.Decide.{ℕ_discrete}
use worktree_merge_consensus.Json.{Value}
use worktree_merge_consensus.Protocol.{MessagePhase}
use worktree_merge_consensus.Protocol.Reading.{Wire}

pub data Phase : Type 0 where
  discover freeze contract plan_review integrate verify result_review : Phase
  accepted blocked paused_user_action cancelled : Phase

pub data RunStatus : Type 0 where
  running waiting_thread paused_user_action accepted blocked cancelled incompatible_codex :
      RunStatus

pub data Role : Type 0 where
  primary reviewer : Role

pub data NextAction : Type 0 where
  request_primary_contract request_reviewer_contract request_primary_plan : NextAction
  request_reviewer_plan_verdict request_primary_integration : NextAction
  request_primary_verification request_reviewer_result_verdict : NextAction
  revalidate_and_accept wait_for_user stop : NextAction

unfoldable pub Phase-discrete : Discrete Phase
Phase-discrete = hlevel

unfoldable pub RunStatus-discrete : Discrete RunStatus
RunStatus-discrete = hlevel

unfoldable pub Role-discrete : Discrete Role
Role-discrete = hlevel

unfoldable pub NextAction-discrete : Discrete NextAction
NextAction-discrete = hlevel

instance abbrev pub phase_eq : Eq Phase
phase_eq = record { dec_eq = Phase-discrete }

instance abbrev pub status_eq : Eq RunStatus
status_eq = record { dec_eq = RunStatus-discrete }

instance abbrev pub role_eq : Eq Role
role_eq = record { dec_eq = Role-discrete }

instance abbrev pub action_eq : Eq NextAction
action_eq = record { dec_eq = NextAction-discrete }

-- A `PathBuf` is its components, which are what its equality compares.
pub data Component : Type 0 where
  root_dir cur_dir parent_dir : Component
  normal : String → Component

abbrev pub PathBuf : Type 0
PathBuf = List Component

unfoldable pub Component-discrete : Discrete Component
Component-discrete = hlevel String-discrete

instance abbrev pub component_eq : Eq Component
component_eq = record { dec_eq = Component-discrete }

-- `Path::is_absolute` on Unix.
abbrev pub is_absolute : PathBuf → Bool
is_absolute (root_dir ∷ p) = true
is_absolute _ = false

-- A signed integer; `negsuc n` is -(n + 1). An exit code is an `i64`.
pub data ℤ : Type 0 where
  pos : ℕ → ℤ
  negsuc : ℕ → ℤ

unfoldable pub ℤ-discrete : Discrete ℤ
ℤ-discrete = hlevel ℕ_discrete

instance abbrev pub integer_eq : Eq ℤ
integer_eq = record { dec_eq = ℤ-discrete }

pub record RunFacts : Type 0 where
  pub run_id : ℕ
  pub primary_thread_id : String
  pub reviewer_thread_id : String
  pub primary_worktree : PathBuf
  pub reviewer_worktree : PathBuf
  pub git_common_dir : PathBuf
  pub primary_sha : String
  pub reviewer_sha : String
  pub primary_ref : Option String
  pub reviewer_ref : Option String

pub record TestEvidence : Type 0 where
  pub command : String
  pub exit_code : ℤ
  pub turn_id : String
  pub item_id : String
  pub cwd : PathBuf

unfoldable pub TestEvidence-discrete : Discrete TestEvidence
TestEvidence-discrete = hlevel (String-discrete, ℤ-discrete, Component-discrete)

instance abbrev pub evidence_eq : Eq TestEvidence
evidence_eq = record { dec_eq = TestEvidence-discrete }

pub record VerificationFailure : Type 0 where
  pub command : String
  pub exit_code : ℤ
  pub item_id : String
  pub output : String

pub record PublicationBoundary : Type 0 where
  pub local_only : Bool
  pub pushed : Bool
  pub pull_request_created : Bool
  pub merged_into_existing_branch : Bool

pub record AcceptedResult : Type 0 where
  pub integration_branch : String
  pub integration_sha : String
  pub primary_sha : String
  pub reviewer_sha : String
  pub tests : List TestEvidence
  pub source_refs_unchanged : Bool
  pub publication : PublicationBoundary

unfoldable pub AcceptedResult-discrete : Discrete AcceptedResult
AcceptedResult-discrete = hlevel (String-discrete, TestEvidence-discrete)

instance abbrev pub result_eq : Eq AcceptedResult
result_eq = record { dec_eq = AcceptedResult-discrete }

pub record RunDiagnostic : Type 0 where
  pub code : String
  pub detail : String
  pub operation : Option String
  pub action : NextAction
  pub role : Option Role
  pub thread_id : Option String
  pub source_thread_id : Option String
  pub effective_thread_id : Option String
  pub participant_binding_generation : Option ℕ
  pub participant_binding_mode : Option String
  pub participant_server : Option String

-- `round`, `plan_revision` and `max_review_rounds` are `u32`, the streak and its limit `u8`.
pub record RunState : Type 0 where
  pub schema_version : ℕ
  pub facts : RunFacts
  pub phase : Phase
  pub status : RunStatus
  pub round : ℕ
  pub plan_revision : Option ℕ
  pub integration_branch : Option String
  pub integration_sha : Option String
  pub reason_code : Option String
  pub last_error : Option RunDiagnostic
  pub next_action : NextAction
  pub target_integration_branch : Option String
  pub required_test_commands : List String
  pub test_evidence : List TestEvidence
  pub accepted_result : Option AcceptedResult
  pub primary_contract : Option Value
  pub reviewer_contract : Option Value
  pub current_plan_payload : Option Value
  pub plan_approval_payload : Option Value
  pub current_integration_payload : Option Value
  pub last_plan_feedback : Option Value
  pub last_result_feedback : Option Value
  pub verification_worktree : Option PathBuf
  pub max_review_rounds : ℕ
  pub no_progress_rounds : ℕ
  pub primary_contract_hash : Option String
  pub reviewer_contract_hash : Option String
  pub current_plan_hash : Option String
  pub last_review_fingerprint : Option String
  pub unchanged_review_streak : ℕ
  pub plan_approved : Bool
  pub result_approved_sha : Option String

abbrev pub default_max_review_rounds : ℕ
default_max_review_rounds = 6

abbrev pub default_no_progress_rounds : ℕ
default_no_progress_rounds = 2

abbrev pub run_state_schema_version : ℕ
run_state_schema_version = 2

unfoldable pub new : RunFacts → RunState
new facts = record {
  schema_version = run_state_schema_version;
  facts = facts;
  phase = contract;
  status = running;
  round = 1;
  plan_revision = none;
  integration_branch = none;
  integration_sha = none;
  reason_code = none;
  last_error = none;
  next_action = request_primary_contract;
  target_integration_branch = none;
  required_test_commands = [];
  test_evidence = [];
  accepted_result = none;
  primary_contract = none;
  reviewer_contract = none;
  current_plan_payload = none;
  plan_approval_payload = none;
  current_integration_payload = none;
  last_plan_feedback = none;
  last_result_feedback = none;
  verification_worktree = none;
  max_review_rounds = default_max_review_rounds;
  no_progress_rounds = default_no_progress_rounds;
  primary_contract_hash = none;
  reviewer_contract_hash = none;
  current_plan_hash = none;
  last_review_fingerprint = none;
  unchanged_review_streak = 0;
  plan_approved = false;
  result_approved_sha = none;
}

-- `MessagePhase::from`
unfoldable pub message_phase : Phase → MessagePhase
message_phase discover = MessagePhase.discover
message_phase freeze = MessagePhase.freeze
message_phase contract = MessagePhase.contract
message_phase plan_review = MessagePhase.plan_review
message_phase integrate = MessagePhase.integrate
message_phase verify = MessagePhase.verify
message_phase result_review = MessagePhase.result_review
message_phase Phase.accepted = MessagePhase.accepted
message_phase Phase.blocked = MessagePhase.blocked
message_phase Phase.paused_user_action = MessagePhase.paused_user_action
message_phase Phase.cancelled = MessagePhase.cancelled

-- What the state machine takes from elsewhere: serde's codecs of the messages and of the evidence,
-- and the hex digest of a JSON value by `serde_json::to_vec` and SHA-256.
pub record Codec : Type 0 where
  pub wire : Wire
  pub digest : Value → String
  pub decode_evidence : Value → Option TestEvidence
  pub decode_failures : Value → Option (List VerificationFailure)
  pub encode_failures : List VerificationFailure → Option Value
