-- ===== src/State/Equality.antt =====
-- crates/core/src/state.rs: the equality of two states, which is of all their fields.
use worktree_merge_consensus.Prelude.{Eq, String-discrete}
use native.Mathlib.Decide.{ℕ_discrete}
use worktree_merge_consensus.Json.{Value-discrete}
use worktree_merge_consensus.State.Defs.{
  Phase-discrete, RunStatus-discrete, Role-discrete, NextAction-discrete, Component-discrete,
  TestEvidence-discrete, AcceptedResult-discrete, RunFacts, RunDiagnostic, RunState,
}

unfoldable pub RunFacts-discrete : Discrete RunFacts
RunFacts-discrete = hlevel (String-discrete, ℕ_discrete, Component-discrete)

unfoldable pub RunDiagnostic-discrete : Discrete RunDiagnostic
RunDiagnostic-discrete = hlevel (String-discrete, ℕ_discrete, NextAction-discrete, Role-discrete)

unfoldable pub RunState-discrete : Discrete RunState
RunState-discrete = hlevel (
  ℕ_discrete, String-discrete, Value-discrete, Component-discrete, TestEvidence-discrete,
  AcceptedResult-discrete, Phase-discrete, RunStatus-discrete, NextAction-discrete,
  RunFacts-discrete, RunDiagnostic-discrete,
)

instance abbrev pub state_eq : Eq RunState
state_eq = record { dec_eq = RunState-discrete }

instance abbrev pub facts_eq : Eq RunFacts
facts_eq = record { dec_eq = RunFacts-discrete }
