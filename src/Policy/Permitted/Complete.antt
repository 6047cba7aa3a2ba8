-- ===== src/Policy/Permitted/Complete.antt =====
-- crates/daemon/src/policy.rs: a listed call of git passes the tests.
use worktree_merge_consensus.Prelude.{
  true, false, String, some, List, [], ◌∷◌, contains, ◌≡◌, ◌⊎◌, inl, inr, refl, sym, arith, eqb,
  eqb_refl, eqb_complete, string_eq, option_eq, list_eq, String-discrete, List-discrete,
  Option-discrete,
}
use worktree_merge_consensus.Prelude.Searches.{any_of_All}
use worktree_merge_consensus.Text.{append}
use worktree_merge_consensus.State.Defs.{RunState}
use worktree_merge_consensus.Policy.Defs.{Shell}
use worktree_merge_consensus.Policy.Git.{
  is_unsafe_argument, safe_read_only_git_arguments, safe_branch_arguments, safe_show_ref_arguments,
  is_allowed_read_only_git_invocation, git_call, corrective_integration, is_target_switch,
  is_safe_commit, is_allowed_git_write, is_allowed_git_command, allows,
}
use worktree_merge_consensus.Policy.Permitted.{Reads, Unintegrated, Writes}
use worktree_merge_consensus.Policy.Permitted.Reads.{
  inspects, shows_branch, lists_target, verifies_target, shows_head,
}
use worktree_merge_consensus.Policy.Permitted.Writes.{
  switches, merges, adds, commits, commits_message,
}

module _ (sh : Shell) (s : RunState) where
  Reads-allows : (words : List String) → Reads s words → allows sh s (git_call words) ≡ true
  unfolding is_allowed_read_only_git_invocation safe_read_only_git_arguments safe_branch_arguments
      safe_show_ref_arguments contains eqb String-discrete List-discrete
  Reads-allows words (inspects sub args listed safe e) =
      rw e (rw listed (rw (any_of_All is_unsafe_argument args safe) refl))
  Reads-allows words (shows_branch b t e) =
      rw e (rw t (ground (arith, eqb_refl (List-discrete String-discrete) ("--show-current" ∷ []))))
  Reads-allows words (lists_target b t e) =
      rw e (rw t (ground (arith, eqb_refl (List-discrete String-discrete) ("--list" ∷ b ∷ []))))
  Reads-allows words (verifies_target b t (inl e)) = rw e (
      rw t (
        ground (
          arith,
          eqb_refl (List-discrete String-discrete) ("--verify" ∷ append "refs/heads/" b ∷ []),
        )))
  Reads-allows words (verifies_target b t (inr e)) = rw e (
      rw t (
        ground (
          arith,
          eqb_refl (List-discrete String-discrete)
              ("--verify" ∷ "--quiet" ∷ append "refs/heads/" b ∷ []),
        )))
  Reads-allows words (shows_head e) = rw e refl

  is_target_switch-target :
      (branch : String)
      → s.target_integration_branch ≡ some branch
      → is_target_switch s ("-c" ∷ branch ∷ s.facts.primary_sha ∷ []) ≡ true
  unfolding is_target_switch
  is_target_switch-target branch t = ground (
    arith,
    eqb_refl String-discrete "-c",
    eqb_complete (Option-discrete String-discrete) (some branch) s.target_integration_branch
        (sym t),
    eqb_refl String-discrete s.facts.primary_sha,
  )

  corrective-Unintegrated : Unintegrated s → corrective_integration s ≡ false
  unfolding corrective_integration
  corrective-Unintegrated (branch, sha, payload) = rw branch (rw sha (rw payload refl))

  Writes-allows : (words : List String) → Writes sh s words → allows sh s (git_call words) ≡ true
  unfolding is_allowed_read_only_git_invocation is_allowed_git_write is_safe_commit contains eqb
      String-discrete List-discrete
  Writes-allows words (switches b t u e) =
      rw e (rw (corrective-Unintegrated u) (rw (is_target_switch-target b t) refl))
  Writes-allows words (merges u e) = rw e (
      rw (corrective-Unintegrated u) (
        ground (
          arith,
          eqb_refl (List-discrete String-discrete)
              ("--no-ff" ∷ "--no-edit" ∷ s.facts.reviewer_sha ∷ []),
        )))
  Writes-allows words (adds (inl e)) = rw e refl
  Writes-allows words (adds (inr e)) = rw e refl
  Writes-allows words (commits e) = rw e refl
  Writes-allows words (commits_message m safe e) = rw e (rw safe (ground arith))

  allows-words :
      (words : List String)
      → Reads s words ⊎ Writes sh s words
      → allows sh s (git_call words) ≡ true
  allows-words words (inl r) = Reads-allows words r
  allows-words words (inr w) = Writes-allows words w

  -- A command whose words are listed is allowed as a call of git.
  pub listed-git_command :
      (command : String) (words : List String)
      → sh.split command ≡ some words
      → Reads s words ⊎ Writes sh s words
      → is_allowed_git_command sh s command ≡ true
  unfolding is_allowed_git_command
  listed-git_command command words e listed = ground (arith, allows-words words listed)
