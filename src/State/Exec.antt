-- ===== src/State/Exec.antt =====
-- Methods on `&mut self` that may fail. What was written before an early return stays written, so
-- the state comes back beside the error too. The texts of the errors are left out.

pub mod Keeps
use worktree_merge_consensus.Prelude.Results.{Result, ok, err}
use worktree_merge_consensus.State.Defs.{RunState}

pub data Code : Type 0 where
  run_not_active policy_already_frozen invalid_branch_name invalid_test_command : Code
  invalid_response plan_not_approved not_waiting_thread not_paused not_retryable : Code
  incompatible_state result_not_approved invalid_state test_failure unexpected_message : Code
  unexpected_role plan_missing stale_plan_hash wrong_phase unexpected_integration_branch : Code
  stale_integration_sha stale_integration_branch stale_plan_revision stale_round : Code
  stale_run_id stale_primary_sha stale_reviewer_sha unsafe_verification_workspace : Code

-- A check on `&self`.
abbrev pub Check : Type 0 → Type 0
Check A = Result Code A

abbrev pub Exec : Type 0 → Type 0
Exec A = RunState → Result Code A × RunState

abbrev pub pure : {A : Type 0} → A → Exec A
pure a s = (ok a, s)

-- A check, followed by `?`.
abbrev pub lift : {A : Type 0} → Check A → Exec A
lift r s = (r, s)

abbrev pub write : RunState → Exec (Unit {0})
write t s = (ok tt, t)

abbrev pub continue : {A B : Type 0} → Result Code A → (A → Exec B) → Exec B
continue (ok a) f s = f a s
continue (err e) f s = (err e, s)

infixl 5 ◌>>=◌ ◌>>◌
abbrev pub ◌>>=◌ : {A B : Type 0} → Exec A → (A → Exec B) → Exec B
◌>>=◌ m f s = let (r, s') = m s in continue r f s'

abbrev pub ◌>>◌ : {A B : Type 0} → Exec A → Exec B → Exec B
m >> k = m >>= λ _. k
