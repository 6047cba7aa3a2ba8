-- ===== src/State/Progress/Turns.antt =====
-- The number of messages that a run takes and that change it.
use worktree_merge_consensus.Prelude.{
  ℕ, String, ◌∙◌, ◌+◌, ◌≤◌, ◌≡◌, ◌≢◌, inl, inr, arith, refl, true, List, [], ◌∷◌, length,
}
use worktree_merge_consensus.Prelude.Results.{is_ok}
use worktree_merge_consensus.Protocol.{ProtocolMessage}
use worktree_merge_consensus.State.Defs.{RunState, RunFacts, Codec, RunStatus, PathBuf}
use worktree_merge_consensus.State.Requirements.Facts.{require_running-ok}
use worktree_merge_consensus.State.Messages.{apply_message}
use worktree_merge_consensus.State.Exec.{Check}
use worktree_merge_consensus.State.Workspace.{prepare_verification_workspace, prepare-keeps}
use worktree_merge_consensus.State.Soundness.Control.{prepared-IsSound}
use worktree_merge_consensus.State.Operations.{Reach}
use worktree_merge_consensus.State.Soundness.{IsSound}
use worktree_merge_consensus.State.Soundness.Messages.{apply_message-IsSound}
use worktree_merge_consensus.State.Soundness.Reached.{Reach-IsSound}
use worktree_merge_consensus.State.Bounds.{IsBounded}
use worktree_merge_consensus.State.Bounds.Messages.{apply_message-IsBounded}
use worktree_merge_consensus.State.Bounds.Reached.{Reach-IsBounded}
use worktree_merge_consensus.State.Progress.{budget, apply_message-Advances}

-- Each of the messages, delivered in turn from `s` on, is taken and changes the state. Before a message
-- the workspace of a verification may be prepared; where that fails the state is as it was.
abbrev pub Turns : Codec → RunState → List ProtocolMessage → Type 0
Turns c s [] = Unit {0}
Turns c s (m ∷ ms) =
    (path : ℕ → String → PathBuf) × (provided : Check PathBuf) × let t =
        (prepare_verification_workspace path provided s).1 in
      (is_ok (apply_message c m t).0 ≡ true)
      × ((apply_message c m t).1 ≢ t)
      × Turns c (apply_message c m t).1 ms

prepare-budget :
    (path : ℕ → String → PathBuf) (provided : Check PathBuf) (s : RunState)
    → budget (prepare_verification_workspace path provided s).1 ≡ budget s
prepare-budget path provided s =
    prepare-keeps (λ t. budget t ≡ budget s) path provided s refl λ w. refl

prepare-status :
    (path : ℕ → String → PathBuf) (provided : Check PathBuf) (s : RunState)
    → (prepare_verification_workspace path provided s).1.status ≡ s.status
prepare-status path provided s =
    prepare-keeps (λ t. t.status ≡ s.status) path provided s refl λ w. refl

module _ (c : Codec) where
  blocked-refuses :
      (s : RunState) (ms : List ProtocolMessage)
      → s.status ≡ RunStatus.blocked
      → Turns c s ms
      → length ms ≡ 0
  blocked-refuses s [] h ts = refl
  blocked-refuses s (m ∷ ms) h (path, provided, (taken, _, _)) =
      let t = (prepare_verification_workspace path provided s).1 in
      let still : t.status ≡ RunStatus.blocked = prepare-status path provided s ∙ h in
      unfold apply_message in absurd (ground (arith, require_running-ok t))

  pub length-Turns :
      (s : RunState) (ms : List ProtocolMessage)
      → IsSound s
      → IsBounded s
      → Turns c s ms
      → length ms ≤ budget s + 1
  length-Turns s [] v b ts = ground arith
  length-Turns s (m ∷ ms) v b (path, provided, (taken, changed, ts)) =
      let t = (prepare_verification_workspace path provided s).1 in
      let v' = prepare-keeps IsSound path provided s v (prepared-IsSound s v) in
      let b' = prepare-keeps IsBounded path provided s b λ w. ground arith in
      let e = prepare-budget path provided s in
      elim (apply_message-Advances c m t v' b' taken) [
        | inl blocked ↦ ground (arith, blocked-refuses (apply_message c m t).1 ms blocked ts)
        | inr (inl lower) ↦ omega (
          arith,
          e,
          lower,
          length-Turns (apply_message c m t).1 ms (apply_message-IsSound t v' c m)
              (apply_message-IsBounded c t v' b' m) ts,
        )
        | inr (inr same) ↦ absurd (changed same)
      ]

  budget_bound : (s : RunState) → IsBounded s → budget s ≤ 38
  budget_bound s b = ground arith

  -- From any state that a run reaches, at most 39 messages in a row are taken and change the run, with the
  -- workspace of a verification prepared before any of them.
  pub length-Turns-Reach :
      (facts : RunFacts) (s : RunState) (ms : List ProtocolMessage)
      → Reach c facts s
      → Turns c s ms
      → length ms ≤ 39
  length-Turns-Reach facts s ms r ts = ground (
    arith,
    length-Turns s ms (Reach-IsSound c r) (Reach-IsBounded c facts s r) ts,
    budget_bound s (Reach-IsBounded c facts s r),
  )
