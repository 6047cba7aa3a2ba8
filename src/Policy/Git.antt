-- ===== src/Policy/Git.antt =====
-- crates/daemon/src/policy.rs: which calls of git are allowed.

use Prim.Native.String.{len}
use worktree_merge_consensus.Prelude.{
  Bool, false, not, ◌&&◌, ◌||◌, String, Option, none, some, List, [], ◌∷◌, any, contains, leb,
  is_some, if◌then◌else◌, ◌==◌, nat_eq, string_eq, option_eq, list_eq,
}
use worktree_merge_consensus.Text.{is_empty, starts_with, ends_with, append}
use worktree_merge_consensus.Text.Parts.{includes, all_chars}
use worktree_merge_consensus.State.Defs.{RunState}
use worktree_merge_consensus.Policy.Defs.{Shell}

abbrev special_flags : List String
special_flags = "--no-index" ∷ "--ext-diff" ∷ "--textconv" ∷ "--output" ∷ []

-- A flag that writes or runs a program, or a path out of the worktree.
unfoldable pub is_unsafe_argument : String → Bool
is_unsafe_argument word =
    contains special_flags word
    || starts_with word "--output="
    || starts_with word "/"
    || word == ".."
    || starts_with word "../"
    || ends_with word "/.."
    || includes word "/../"

unfoldable pub safe_read_only_git_arguments : List String → Bool
safe_read_only_git_arguments arguments = not (any is_unsafe_argument arguments)

unfoldable pub safe_branch_arguments : RunState → List String → Bool
safe_branch_arguments s arguments =
    if arguments == "--show-current" ∷ []
    then is_some s.target_integration_branch
    else elim s.target_integration_branch [
      | none ↦ false
      | some branch ↦ arguments == "--list" ∷ branch ∷ []
    ]

unfoldable pub safe_show_ref_arguments : RunState → List String → Bool
safe_show_ref_arguments s arguments = elim s.target_integration_branch [
  | none ↦ false
  | some branch ↦
      arguments == "--verify" ∷ append "refs/heads/" branch ∷ []
      || arguments == "--verify" ∷ "--quiet" ∷ append "refs/heads/" branch ∷ []
]

abbrev pub reading_subcommands : List String
reading_subcommands =
    "status" ∷ "diff" ∷ "show" ∷ "log" ∷ "rev-parse" ∷ "merge-base" ∷ "ls-files" ∷ "grep" ∷ []

unfoldable pub is_allowed_read_only_git_invocation : RunState → String → List String → Bool
is_allowed_read_only_git_invocation s subcommand arguments =
    if contains reading_subcommands subcommand
    then safe_read_only_git_arguments arguments
    else if subcommand == "branch"
    then safe_branch_arguments s arguments
    else if subcommand == "show-ref"
    then safe_show_ref_arguments s arguments
    else subcommand == "symbolic-ref" && arguments == "--short" ∷ "HEAD" ∷ []

-- The subcommand and its arguments, of the words of a call of git.
abbrev pub git_call : List String → Option (String × List String)
git_call (program ∷ subcommand ∷ rest) = if program == "git" then some (subcommand, rest) else none
git_call _ = none

unfoldable pub corrective_integration : RunState → Bool
corrective_integration s =
    is_some s.integration_branch
    || is_some s.integration_sha
    || is_some s.current_integration_payload

-- The target branch, made at the Primary's SHA.
unfoldable pub is_target_switch : RunState → List String → Bool
is_target_switch s (flag ∷ branch ∷ sha ∷ []) =
    flag == "-c" && some branch == s.target_integration_branch && sha == s.facts.primary_sha
is_target_switch s _ = false

module _ (sh : Shell) where
  unfoldable pub safe_commit_message : String → Bool
  safe_commit_message message =
      not (is_empty message)
      && leb (len message) 120
      && all_chars (λ c. sh.is_alphanumeric c || c == 45 || c == 95 || c == 46 || c == 58) message

  unfoldable pub is_safe_commit : List String → Bool
  is_safe_commit (flag ∷ message ∷ []) = flag == "-m" && safe_commit_message message
  is_safe_commit _ = false

  -- The calls of git that write.
  unfoldable pub is_allowed_git_write : RunState → String → List String → Bool
  is_allowed_git_write s subcommand rest =
      if subcommand == "switch"
      then not (corrective_integration s) && is_target_switch s rest
      else if subcommand == "merge"
      then not (corrective_integration s)
        && rest == "--no-ff" ∷ "--no-edit" ∷ s.facts.reviewer_sha ∷ []
      else if subcommand == "add"
      then rest == "-A" ∷ [] || rest == "--all" ∷ []
      else subcommand == "commit" && (rest == "--no-edit" ∷ [] || is_safe_commit rest)

  abbrev pub allows : RunState → Option (String × List String) → Bool
  allows s none = false
  allows s (some (subcommand, rest)) =
      is_allowed_read_only_git_invocation s subcommand rest
      || is_allowed_git_write s subcommand rest

  unfoldable pub is_allowed_git_command : RunState → String → Bool
  is_allowed_git_command s command = elim (sh.split command) [
    | none ↦ false
    | some words ↦ allows s (git_call words)
  ]

  unfoldable pub is_allowed_read_only_git_command : RunState → String → Bool
  is_allowed_read_only_git_command s command = elim (sh.split command) [
    | none ↦ false
    | some words ↦ elim (git_call words) [
      | none ↦ false
      | some (subcommand, rest) ↦ is_allowed_read_only_git_invocation s subcommand rest
    ]
  ]
