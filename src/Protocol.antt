-- ===== src/Protocol.antt =====
-- crates/core/src/protocol.rs: the messages that the two tasks exchange. The children hold the
-- invariants of a message and the reading of one from JSON.
pub mod Invariants
pub mod Reading
pub mod Approvals
use worktree_merge_consensus.Prelude.{ℕ, String, Option, Eq}
use worktree_merge_consensus.Json.{Value}

abbrev pub protocol_v1 : String
protocol_v1 = "worktree-merge-consensus/v1"

pub data MessageType : Type 0 where
  contract_ready plan_ready changes_required approved_plan : MessageType
  integration_ready approved_result blocked : MessageType

pub data MessagePhase : Type 0 where
  discover freeze contract plan_review integrate verify result_review : MessagePhase
  accepted blocked paused_user_action cancelled : MessagePhase

unfoldable pub MessagePhase-discrete : Discrete MessagePhase
MessagePhase-discrete = hlevel

instance abbrev pub message_phase_eq : Eq MessagePhase
message_phase_eq = record { dec_eq = MessagePhase-discrete }

-- `round` and `plan_revision` are `u32`, `run_id` a 128-bit UUID.
pub record Envelope : Type 0 where
  pub protocol : String
  pub run_id : ℕ
  pub message_type : MessageType
  pub phase : MessagePhase
  pub round : ℕ
  pub primary_sha : String
  pub reviewer_sha : String
  pub plan_revision : Option ℕ
  pub integration_branch : Option String
  pub integration_sha : Option String
  pub reason_code : Option String

pub record ProtocolMessage : Type 0 where
  pub envelope : Envelope
  pub payload : Value

-- The texts that the errors carry are left out.
pub data ProtocolError : Type 0 where
  expected_object schema decode invariant : ProtocolError
