-- ===== src/State/Requirements/Facts.antt =====
-- What a check of state.rs that passed says of the state and the message.
use worktree_merge_consensus.Prelude.{
  ℕ, Bool, true, false, ◌≡◌, refl, arith, String-discrete, Option-discrete, eqb_sound, nat_eq,
  string_eq, option_eq,
}
use native.Mathlib.Decide.{ℕ_discrete}
use worktree_merge_consensus.Prelude.Results.{ok, guard}
use worktree_merge_consensus.Protocol.{ProtocolMessage}
use worktree_merge_consensus.State.Defs.{
  Phase, RunStatus, RunState, RunFacts, Phase-discrete, RunStatus-discrete,
}
use worktree_merge_consensus.State.Requirements.{
  require_running, require_phase, require_round, require_plan_revision, require_current_integration,
  verify_immutable_envelope,
}

pub guard-ok : {E : Type 0} (e : E) (b : Bool) {u : Unit {0}} → guard e b ≡ ok u → b ≡ true
guard-ok e true h = refl
guard-ok e false h = ground arith

pub require_running-ok :
    (s : RunState) {u : Unit {0}} → require_running s ≡ ok u → s.status ≡ RunStatus.running
unfolding require_running
require_running-ok s h = eqb_sound RunStatus-discrete _ _ (guard-ok _ _ h)

pub require_phase-ok :
    (s : RunState) (p : Phase) {u : Unit {0}} → require_phase s p ≡ ok u → s.phase ≡ p
unfolding require_phase
require_phase-ok s p h = eqb_sound Phase-discrete _ _ (guard-ok _ _ h)

pub require_round-ok :
    (m : ProtocolMessage) (expected : ℕ) {u : Unit {0}}
    → require_round m expected ≡ ok u
    → m.envelope.round ≡ expected
unfolding require_round
require_round-ok m expected h = eqb_sound ℕ_discrete _ _ (guard-ok _ _ h)

pub require_plan_revision-ok :
    (s : RunState) (m : ProtocolMessage) {u : Unit {0}}
    → require_plan_revision s m ≡ ok u
    → m.envelope.plan_revision ≡ s.plan_revision
unfolding require_plan_revision
require_plan_revision-ok s m h = eqb_sound (Option-discrete ℕ_discrete) _ _ (guard-ok _ _ h)

pub require_current_integration-ok :
    (s : RunState) (m : ProtocolMessage) {u : Unit {0}}
    → require_current_integration s m ≡ ok u
    → (m.envelope.integration_branch ≡ s.integration_branch)
      × (m.envelope.integration_sha ≡ s.integration_sha)
unfolding require_current_integration
require_current_integration-ok s m h = ground (
  arith,
  eqb_sound (Option-discrete String-discrete) m.envelope.integration_branch s.integration_branch,
  eqb_sound (Option-discrete String-discrete) m.envelope.integration_sha s.integration_sha,
)

-- The envelope names the run and its frozen sources.
pub record Binds (facts : RunFacts) (m : ProtocolMessage) : Type 0 where
  pub run : m.envelope.run_id ≡ facts.run_id
  pub primary : m.envelope.primary_sha ≡ facts.primary_sha
  pub reviewer : m.envelope.reviewer_sha ≡ facts.reviewer_sha

pub verify_immutable_envelope-ok :
    (s : RunState) (m : ProtocolMessage) {u : Unit {0}}
    → verify_immutable_envelope s m ≡ ok u
    → Binds s.facts m
unfolding verify_immutable_envelope
verify_immutable_envelope-ok s m h = ground (
  arith,
  eqb_sound ℕ_discrete m.envelope.run_id s.facts.run_id,
  eqb_sound String-discrete m.envelope.primary_sha s.facts.primary_sha,
  eqb_sound String-discrete m.envelope.reviewer_sha s.facts.reviewer_sha,
)
