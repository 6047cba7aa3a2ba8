-- ===== src/State/Soundness.antt =====
-- crates/core/src/state.rs: the invariant of a run's state that its operations keep. The children
-- prove it of each group of operations.
pub mod Planning
pub mod Integration
pub mod Messages
pub mod Control
pub mod Stored
pub mod Revival
pub mod Recovery
pub mod Reached
pub mod Decisions
use worktree_merge_consensus.Prelude.{
  ℕ, ◌≤◌, ◌<◌, ◌^◌, Bool, true, false, ◌||◌, Option, none, some, [], ◌≡◌, ◌≢◌, is_nil, any,
}
use worktree_merge_consensus.Prelude.Results.{ok}
use worktree_merge_consensus.State.Defs.{Phase, NextAction, RunStatus, RunState}
use worktree_merge_consensus.State.Evidence.{is_incomplete, failed}
use worktree_merge_consensus.State.Persisted.{lacks_integration, validate_accepted}

-- The actions that are pending in a phase.
abbrev pub action_fits : Phase → NextAction → Bool
action_fits Phase.contract NextAction.request_primary_contract = true
action_fits Phase.contract NextAction.request_reviewer_contract = true
action_fits Phase.plan_review NextAction.request_primary_plan = true
action_fits Phase.plan_review NextAction.request_reviewer_plan_verdict = true
action_fits Phase.integrate NextAction.request_primary_integration = true
action_fits Phase.verify NextAction.request_primary_verification = true
action_fits Phase.result_review NextAction.request_reviewer_result_verdict = true
action_fits Phase.result_review NextAction.revalidate_and_accept = true
action_fits Phase.accepted NextAction.stop = true
action_fits Phase.blocked NextAction.stop = true
action_fits Phase.cancelled NextAction.stop = true
action_fits _ _ = false

-- The phases before an integration, those under an approved plan, and those after an integration.
abbrev pub is_planning : Phase → Bool
is_planning Phase.contract = true
is_planning Phase.plan_review = true
is_planning _ = false

abbrev pub needs_approval : Phase → Bool
needs_approval Phase.integrate = true
needs_approval Phase.verify = true
needs_approval Phase.result_review = true
needs_approval Phase.accepted = true
needs_approval _ = false

abbrev pub is_integrated : Phase → Bool
is_integrated Phase.verify = true
is_integrated Phase.result_review = true
is_integrated _ = false

pub record IsSound (s : RunState) : Type 0 where
  pub schema : s.schema_version ≡ 2
  pub fits : action_fits s.phase s.next_action ≡ true
  pub planned : is_planning s.phase ≡ true → s.integration_sha ≡ none
  pub approved : needs_approval s.phase ≡ true → s.plan_approved ≡ true
  pub integrated : is_integrated s.phase ≡ true → lacks_integration s ≡ false
  pub unintegrated : s.integration_sha ≡ none → s.test_evidence ≡ []
  pub complete :
      is_nil s.test_evidence ≡ false
      → is_incomplete s.required_test_commands s.test_evidence ≡ false
  pub verified :
      s.phase ≡ Phase.result_review
      → (is_incomplete s.required_test_commands s.test_evidence ≡ false)
        × (any failed s.test_evidence ≡ false)
  pub exact :
      s.next_action ≡ NextAction.revalidate_and_accept → s.result_approved_sha ≡ s.integration_sha
  pub open_result : s.status ≢ RunStatus.accepted → s.accepted_result ≡ none
  pub closed_result : s.status ≡ RunStatus.accepted → validate_accepted s ≡ ok tt
