-- ===== src/State/Workspace.antt =====
-- crates/daemon/src/coordinator.rs: the workspace of a verification, which the coordinator writes into
-- the state of the run before each verification.
use worktree_merge_consensus.Prelude.{
  ℕ, Bool, true, String, Option, none, some, ◌==◌, option_eq, list_eq,
}
use worktree_merge_consensus.Prelude.Results.{guard, ok_or}
use worktree_merge_consensus.State.Defs.{RunState, PathBuf, component_eq}
use worktree_merge_consensus.State.Exec.Keeps.{bind-keeps}
use worktree_merge_consensus.State.Exec.{
  Exec, Check, lift, write, ◌>>=◌, ◌>>◌, invalid_state, unsafe_verification_workspace,
}

-- No path is on record, or the one that the integration gets.
unfoldable pub is_destination : PathBuf → Option PathBuf → Bool
is_destination destination none = true
is_destination destination (some existing) = existing == destination

-- `verification_path` is the store's path of a run and an integration, and `provided` the workspace that
-- Git prepares or recovers there, or its error. The state is saved after it.
unfoldable pub prepare_verification_workspace :
    (ℕ → String → PathBuf) → Check PathBuf → Exec (Unit {0})
prepare_verification_workspace verification_path provided s =
    (do
      integration_sha ← lift (ok_or s.integration_sha invalid_state)
      let destination = verification_path s.facts.run_id integration_sha
      lift (guard invalid_state (is_destination destination s.verification_worktree))
      prepared ← lift provided
      lift (guard unsafe_verification_workspace (prepared == destination))
      write (record s { verification_worktree = some prepared }))
      s

-- A property that does not look at the workspace is kept.
pub prepare-keeps :
    (P : RunState → Type 0) (verification_path : ℕ → String → PathBuf) (provided : Check PathBuf)
    (s : RunState)
    → P s
    → ((worktree : PathBuf) → P (record s { verification_worktree = some worktree }))
    → P (prepare_verification_workspace verification_path provided s).1
unfolding prepare_verification_workspace
prepare-keeps P verification_path provided s p k =
    bind-keeps P (ok_or s.integration_sha invalid_state) _ s p λ sha _.
      bind-keeps P
        (guard invalid_state
          (is_destination (verification_path s.facts.run_id sha) s.verification_worktree))
        _ s p
        λ _ _. bind-keeps P provided _ s p λ prepared _.
          bind-keeps P
            (guard unsafe_verification_workspace (prepared == verification_path s.facts.run_id sha))
            _ s p λ _ _. k prepared
