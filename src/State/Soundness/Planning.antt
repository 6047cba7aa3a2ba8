-- ===== src/State/Soundness/Planning.antt =====
-- The handlers of contracts and plans keep a run's state sound.
use worktree_merge_consensus.Prelude.{◌≡◌, arith}
use worktree_merge_consensus.Json.{Value}
use worktree_merge_consensus.Protocol.{ProtocolMessage}
use worktree_merge_consensus.State.Defs.{RunState, Codec, Phase, RunStatus}
use worktree_merge_consensus.State.Persisted.{lacks_integration}
use worktree_merge_consensus.State.Requirements.{require_phase, require_running}
use worktree_merge_consensus.State.Requirements.Facts.{require_running-ok, require_phase-ok}
use worktree_merge_consensus.State.Transitions.{request_integration}
use worktree_merge_consensus.State.Planning.{
  apply_plan, apply_plan_approval, apply_contract, record_plan,
}
use worktree_merge_consensus.State.Soundness.{IsSound}

pub request_integration-IsSound : (s : RunState) → IsSound s → IsSound (request_integration s).1
unfolding request_integration lacks_integration
request_integration-IsSound s v =
    ground (arith, require_running-ok s, require_phase-ok s Phase.plan_review)

module _ (c : Codec) where
  pub record_plan-IsSound :
      (payload : Value) (s : RunState) → IsSound s → IsSound (record_plan c payload s).1
  unfolding record_plan lacks_integration
  record_plan-IsSound payload s v =
      ground (arith, require_running-ok s, require_phase-ok s Phase.plan_review)

  pub apply_contract-IsSound :
      (m : ProtocolMessage) (s : RunState)
      → s.status ≡ RunStatus.running
      → IsSound s
      → IsSound (apply_contract c m s).1
  unfolding apply_contract lacks_integration
  apply_contract-IsSound m s r v = ground (arith, require_phase-ok s Phase.contract)

  pub apply_plan-IsSound :
      (m : ProtocolMessage) (s : RunState) → IsSound s → IsSound (apply_plan c m s).1
  unfolding apply_plan lacks_integration
  apply_plan-IsSound m s v =
      ground (arith, require_running-ok s, require_phase-ok s Phase.plan_review)

pub apply_plan_approval-IsSound :
    (m : ProtocolMessage) (s : RunState)
    → s.status ≡ RunStatus.running
    → IsSound s
    → IsSound (apply_plan_approval m s).1
unfolding apply_plan_approval lacks_integration require_running require_phase
apply_plan_approval-IsSound m s r v = ground (arith, require_phase-ok s Phase.plan_review)
