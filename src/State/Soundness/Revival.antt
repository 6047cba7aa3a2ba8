-- ===== src/State/Soundness/Revival.antt =====
-- A run revived at a step is sound, and what the guards of the recoveries say.
use worktree_merge_consensus.Prelude.{◌≡◌, ◌≢◌, arith, true, false, eqb_sound, String, none}
use worktree_merge_consensus.Prelude.Results.{ok}
use worktree_merge_consensus.State.Defs.{RunState, Phase, NextAction, RunStatus, RunStatus-discrete}
use worktree_merge_consensus.State.Exec.{pure}
use worktree_merge_consensus.State.Persisted.{validate_persisted, lacks_integration}
use worktree_merge_consensus.State.Evidence.{
  validate_test_evidence, validate_complete_test_evidence,
}
use worktree_merge_consensus.State.Recovery.{
  is_blocked_for, is_terminal, lacks_result, has_approved_plan, awaits_evidence, revive, finish,
}
use worktree_merge_consensus.State.Recovery.Planning.{declaration_phase, read_only_phase}
use worktree_merge_consensus.State.Recovery.Verification.{awaits_verdict}
use worktree_merge_consensus.State.Recovery.Correction.{is_correctable}
use worktree_merge_consensus.State.Exec.Keeps.{bind-keeps}
use worktree_merge_consensus.State.Soundness.{IsSound, is_planning, action_fits}

pub finish-state : (t s : RunState) (P : RunState → Type 0) → P t → P (finish t s).1
unfolding finish
finish-state t s P p = bind-keeps P (validate_persisted t) (λ _. pure t.next_action) t p (λ _ _. p)

-- A run that stopped can go on at a step whose premises it still meets.
module _ (s : RunState) (v : IsSound s) (stopped : s.status ≢ RunStatus.accepted) where
  pub revive-planning :
      (phase : Phase) (action : NextAction)
      → is_planning phase ≡ true
      → action_fits phase action ≡ true
      → lacks_result s ≡ true
      → IsSound (revive phase action s)
  unfolding revive lacks_result lacks_integration
  revive-planning phase action p f l = ground arith

  pub revive-integrate :
      s.plan_approved ≡ true
      → IsSound (revive Phase.integrate NextAction.request_primary_integration s)
  unfolding revive lacks_integration
  revive-integrate a = ground arith

  pub revive-verify :
      s.plan_approved ≡ true
      → lacks_integration s ≡ false
      → IsSound (revive Phase.verify NextAction.request_primary_verification s)
  unfolding revive lacks_integration
  revive-verify a i = ground arith

  pub revive-review :
      s.plan_approved ≡ true
      → lacks_integration s ≡ false
      → validate_test_evidence s ≡ ok tt
      → IsSound (revive Phase.result_review NextAction.request_reviewer_result_verdict s)
  unfolding revive lacks_integration validate_test_evidence validate_complete_test_evidence
  revive-review a i e = ground arith

module _ (s : RunState) where
  pub blocked-open :
      (reason : String) → is_blocked_for reason s ≡ true → s.status ≢ RunStatus.accepted
  unfolding is_blocked_for
  blocked-open reason h = ground (arith, eqb_sound RunStatus-discrete s.status RunStatus.blocked)

  pub terminal-open :
      (reason : String) → is_terminal reason s ≡ true → s.status ≢ RunStatus.accepted
  unfolding is_terminal
  terminal-open reason h = ground (arith, eqb_sound RunStatus-discrete s.status RunStatus.blocked)

  pub has_approved_plan-approved : has_approved_plan s ≡ true → s.plan_approved ≡ true
  unfolding has_approved_plan
  has_approved_plan-approved h = ground arith

  pub awaits_evidence-facts :
      awaits_evidence s ≡ true → (s.plan_approved ≡ true) × (lacks_integration s ≡ false)
  unfolding awaits_evidence lacks_integration
  awaits_evidence-facts h = ground arith

  pub awaits_verdict-facts :
      awaits_verdict s ≡ true → (s.plan_approved ≡ true) × (lacks_integration s ≡ false)
  unfolding awaits_verdict lacks_integration
  awaits_verdict-facts h = ground arith

  pub is_correctable-approved : is_correctable s ≡ true → s.plan_approved ≡ true
  unfolding is_correctable
  is_correctable-approved h = ground arith

pub declaration_phase-fits :
    (action : NextAction) {phase : Phase}
    → declaration_phase action ≡ ok phase
    → (is_planning phase ≡ true) × (action_fits phase action ≡ true)
unfolding declaration_phase
declaration_phase-fits action h = ground arith

pub read_only_phase-fits :
    (action : NextAction) {phase : Phase}
    → read_only_phase action ≡ ok phase
    → (is_planning phase ≡ true) × (action_fits phase action ≡ true)
unfolding read_only_phase
read_only_phase-fits action h = ground arith

module _ (s : RunState) where
  pub correct-IsSound :
      IsSound s
      → s.status ≢ RunStatus.accepted
      → s.plan_approved ≡ true
      → IsSound (record s {
        status = RunStatus.running;
        phase = Phase.integrate;
        next_action = NextAction.request_primary_integration;
        reason_code = none;
      })
  unfolding lacks_integration
  correct-IsSound v stopped a = ground arith
