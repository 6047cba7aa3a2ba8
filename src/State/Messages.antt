-- ===== src/State/Messages.antt =====
-- crates/core/src/state.rs: `apply_message` and the handlers of the seven types of message.
use worktree_merge_consensus.Prelude.{String, Option, none, some, nat_eq, string_eq, option_eq}
use worktree_merge_consensus.Prelude.Results.{ok, err}
use worktree_merge_consensus.Json.{Value}
use worktree_merge_consensus.Protocol.{MessageType, ProtocolMessage, message_phase_eq}
use worktree_merge_consensus.Protocol.Reading.{validate_message}
use worktree_merge_consensus.State.Defs.{NextAction, Codec, phase_eq, action_eq}
use worktree_merge_consensus.State.Exec.{Check, Exec, lift, ◌>>=◌, ◌>>◌, invalid_response}
use worktree_merge_consensus.State.Requirements.{
  require_running, verify_immutable_envelope, verify_blocked_envelope,
}
use worktree_merge_consensus.State.Transitions.{block}
use worktree_merge_consensus.State.Planning.{apply_contract, apply_plan, apply_plan_approval}
use worktree_merge_consensus.State.Integration.{apply_integration, apply_result_approval}
use worktree_merge_consensus.State.Review.{apply_changes_required}

-- `as_deref().unwrap_or("INVALID_RESPONSE")`
abbrev reason_or_default : Option String → String
reason_or_default none = "INVALID_RESPONSE"
reason_or_default (some reason) = reason

-- The branch of `apply_message` for BLOCKED.
unfoldable pub apply_blocked : ProtocolMessage → Exec NextAction
unfolding block
apply_blocked m s =
    (do lift (verify_blocked_envelope s m); block (reason_or_default m.envelope.reason_code)) s

module _ (c : Codec) where
  -- `validate_message` with its error mapped.
  read_back : Value → Check ProtocolMessage
  read_back value = elim (validate_message c.wire value) [
    | ok m ↦ ok m
    | err _ ↦ err invalid_response
  ]

  -- The message is serialised and read again, so that its invariants hold.
  unfoldable pub revalidate_message : ProtocolMessage → Check ProtocolMessage
  unfolding read_back
  revalidate_message m = elim (c.wire.encode_message m) [
    | none ↦ err invalid_response
    | some value ↦ read_back value
  ]

  unfoldable pub dispatch : MessageType → ProtocolMessage → Exec NextAction
  dispatch MessageType.contract_ready m = apply_contract c m
  dispatch MessageType.plan_ready m = apply_plan c m
  dispatch MessageType.changes_required m = apply_changes_required c m
  dispatch MessageType.approved_plan m = apply_plan_approval m
  dispatch MessageType.integration_ready m = apply_integration c m
  dispatch MessageType.approved_result m = apply_result_approval m
  dispatch MessageType.blocked m = apply_blocked m

  unfoldable pub apply_message : ProtocolMessage → Exec NextAction
  unfolding dispatch
  apply_message message s =
      (do
        lift (require_running s)
        m ← lift (revalidate_message message)
        lift (verify_immutable_envelope s m)
        dispatch m.envelope.message_type m)
        s
