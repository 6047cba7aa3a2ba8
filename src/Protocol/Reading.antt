-- ===== src/Protocol/Reading.antt =====
-- crates/core/src/protocol.rs: `validate_message`. The JSON schema validator and the decoder that
-- serde derives are parameters.
use worktree_merge_consensus.Prelude.{Bool, Option}
use worktree_merge_consensus.Prelude.Results.{Result, ok, ◌>>=◌, ◌>>◌, guard, ok_or}
use worktree_merge_consensus.Json.{Value, is_object}
use worktree_merge_consensus.Protocol.{ProtocolMessage, ProtocolError}
use worktree_merge_consensus.Protocol.Invariants.{validate_invariants}

pub record Wire : Type 0 where
  pub schema_accepts : Value → Bool
  pub decode_message : Value → Option ProtocolMessage
  pub encode_message : ProtocolMessage → Option Value

module _ (w : Wire) where
  unfoldable pub validate_message : Value → Result ProtocolError ProtocolMessage
  validate_message value = do
    guard ProtocolError.expected_object (is_object value)
    guard ProtocolError.schema (w.schema_accepts value)
    message ← ok_or (w.decode_message value) ProtocolError.decode
    validate_invariants message
    ok message
