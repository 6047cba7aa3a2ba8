-- ===== src/Policy/Permitted.antt =====
-- crates/daemon/src/policy.rs: the calls of git of an integration turn, listed. The children compare
-- the list with the code's tests.
pub mod Sound
pub mod Complete
use worktree_merge_consensus.Prelude.{
  Bool, true, false, not, ◌&&◌, ◌||◌, String, Option, none, some, List, [], ◌∷◌, any, contains,
  is_some, Bool-cases, Option-cases, ◌≡◌, ◌≢◌, ◌⊎◌, inl, inr, refl, sym, ◌∙◌, ap, arith, ◌==◌, eqb,
  eqb_sound, eqb_complete, string_eq, option_eq, list_eq, String-discrete, List-discrete,
  Option-discrete, subst,
}
use worktree_merge_consensus.Prelude.Searches.{All, any-false, any_of_All}
use worktree_merge_consensus.Text.{append}
use worktree_merge_consensus.State.Defs.{RunState}
use worktree_merge_consensus.Policy.Defs.{Shell}
use worktree_merge_consensus.Policy.Git.{
  is_unsafe_argument, safe_read_only_git_arguments, safe_branch_arguments, safe_show_ref_arguments,
  reading_subcommands, is_allowed_read_only_git_invocation, git_call, corrective_integration,
  is_target_switch, safe_commit_message, is_safe_commit, is_allowed_git_write,
  is_allowed_git_command,
}

-- The calls of git that read.
pub data Reads (s : RunState) (words : List String) : Type 0 where
  inspects :
      (subcommand : String) (arguments : List String)
      → contains reading_subcommands subcommand ≡ true
      → All (λ word. is_unsafe_argument word ≡ false) arguments
      → words ≡ "git" ∷ subcommand ∷ arguments
      → Reads s words
  shows_branch :
      (branch : String)
      → s.target_integration_branch ≡ some branch
      → words ≡ "git" ∷ "branch" ∷ "--show-current" ∷ []
      → Reads s words
  lists_target :
      (branch : String)
      → s.target_integration_branch ≡ some branch
      → words ≡ "git" ∷ "branch" ∷ "--list" ∷ branch ∷ []
      → Reads s words
  verifies_target :
      (branch : String)
      → s.target_integration_branch ≡ some branch
      → (words ≡ "git" ∷ "show-ref" ∷ "--verify" ∷ append "refs/heads/" branch ∷ [])
        ⊎ (words ≡ "git" ∷ "show-ref" ∷ "--verify" ∷ "--quiet" ∷ append "refs/heads/" branch ∷ [])
      → Reads s words
  shows_head : words ≡ "git" ∷ "symbolic-ref" ∷ "--short" ∷ "HEAD" ∷ [] → Reads s words

-- Nothing is integrated yet.
abbrev pub Unintegrated : RunState → Type 0
Unintegrated s =
    (s.integration_branch ≡ none)
    × (s.integration_sha ≡ none)
    × (s.current_integration_payload ≡ none)

-- The calls of git that write.
pub data Writes (sh : Shell) (s : RunState) (words : List String) : Type 0 where
  switches :
      (branch : String)
      → s.target_integration_branch ≡ some branch
      → Unintegrated s
      → words ≡ "git" ∷ "switch" ∷ "-c" ∷ branch ∷ s.facts.primary_sha ∷ []
      → Writes sh s words
  merges :
      Unintegrated s
      → words ≡ "git" ∷ "merge" ∷ "--no-ff" ∷ "--no-edit" ∷ s.facts.reviewer_sha ∷ []
      → Writes sh s words
  adds :
      (words ≡ "git" ∷ "add" ∷ "-A" ∷ []) ⊎ (words ≡ "git" ∷ "add" ∷ "--all" ∷ [])
      → Writes sh s words
  commits : words ≡ "git" ∷ "commit" ∷ "--no-edit" ∷ [] → Writes sh s words
  commits_message :
      (message : String)
      → safe_commit_message sh message ≡ true
      → words ≡ "git" ∷ "commit" ∷ "-m" ∷ message ∷ []
      → Writes sh s words
