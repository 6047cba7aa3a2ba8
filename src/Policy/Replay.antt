-- ===== src/Policy/Replay.antt =====
-- crates/daemon/src/policy.rs: the commands that a turn may have run before it is sent again.

use Prim.Native.String.{len}
use worktree_merge_consensus.Prelude.{
  ℕ, ◌-◌, suc, zero, Bool, true, false, not, ◌&&◌, ◌||◌, String, Option, none, some, List, [], ◌∷◌,
  ltb, leb, length, if◌then◌else◌, ◌==◌, nat_eq, string_eq, option_eq, list_eq,
}
use worktree_merge_consensus.Text.{trim, is_empty, append}
use worktree_merge_consensus.Text.Parts.{any_char, strip_prefix, strip_suffix}
use worktree_merge_consensus.State.Defs.{PathBuf, RunState, is_absolute}
use worktree_merge_consensus.State.Defs.Component.{root_dir, cur_dir, parent_dir, normal}
use worktree_merge_consensus.Policy.Defs.{Shell}
use worktree_merge_consensus.Policy.Paths.{components}
use worktree_merge_consensus.Policy.Words.{contains_shell_control, normalize_app_server_command}
use worktree_merge_consensus.Policy.Git.{is_allowed_read_only_git_command}

-- `path.starts_with(".git")`
abbrev pub is_in_git_dir : PathBuf → Bool
is_in_git_dir (normal name ∷ path) = name == ".git"
is_in_git_dir _ = false

abbrev pub all_normal : PathBuf → Bool
all_normal [] = true
all_normal (normal name ∷ path) = all_normal path
all_normal (_ ∷ path) = false

unfoldable pub is_plain_file : String → Bool
is_plain_file path =
    not (is_empty path)
    && not (is_absolute (components path))
    && not (is_in_git_dir (components path))
    && all_normal (components path)

-- The path that is compared with `/dev/null`.
unfoldable pub is_no_index_diff : List String → Bool
unfolding is_plain_file
is_no_index_diff (program ∷ subcommand ∷ flag ∷ dashes ∷ null ∷ path ∷ []) =
    program ∷ subcommand ∷ flag ∷ dashes ∷ null ∷ []
      == "git" ∷ "diff" ∷ "--no-index" ∷ "--" ∷ "/dev/null" ∷ []
    && is_plain_file path
is_no_index_diff _ = false

-- The names of a path that has no `.` and no `..`.
abbrev cons_name : String → Option (List String) → Option (List String)
cons_name name none = none
cons_name name (some names) = some (name ∷ names)

unfoldable pub names_of : PathBuf → Option (List String)
names_of [] = some []
names_of (normal name ∷ path) = cons_name name (names_of path)
names_of (root_dir ∷ path) = names_of path
names_of (cur_dir ∷ path) = none
names_of (parent_dir ∷ path) = none

abbrev drop : ℕ → List String → List String
drop zero names = names
drop (suc n) [] = []
drop (suc n) (name ∷ names) = drop n names

module _ (sh : Shell) where
  unfoldable pub is_retry_safe_no_index_diff : String → Bool
  unfolding is_no_index_diff
  is_retry_safe_no_index_diff command = elim (sh.split command) [
    | none ↦ false
    | some words ↦ is_no_index_diff words
  ]

  -- The skill's own file in a cache of plugins, of some version.
  unfoldable pub is_skill_file : List String → Bool
  is_skill_file (a ∷ b ∷ c ∷ d ∷ version ∷ e ∷ f ∷ g ∷ []) =
      a ∷ b ∷ c ∷ d ∷ []
        == "plugins" ∷ "cache" ∷ "worktree-merge-consensus" ∷ "worktree-merge-consensus" ∷ []
      && sh.is_version version
      && e ∷ f ∷ g ∷ [] == "skills" ∷ "worktree-merge-consensus" ∷ "SKILL.md" ∷ []
  is_skill_file _ = false

  unfoldable pub is_skill_path : PathBuf → Bool
  unfolding names_of is_skill_file
  is_skill_path path = elim (names_of path) [
    | none ↦ false
    | some names ↦ leb 8 (length names) && is_skill_file (drop (length names - 8) names)
  ]

  unfoldable pub is_skill_read : List String → Bool
  unfolding is_skill_path
  is_skill_read (program ∷ flag ∷ range ∷ path ∷ []) =
      program ∷ flag ∷ range ∷ [] == "sed" ∷ "-n" ∷ "1,240p" ∷ []
      && is_absolute (components path)
      && is_skill_path (components path)
  is_skill_read _ = false

  unfoldable pub is_retry_safe_stale_launcher_skill_read : String → Bool
  unfolding is_skill_read
  is_retry_safe_stale_launcher_skill_read command = elim (sh.split command) [
    | none ↦ false
    | some words ↦ is_skill_read words
  ]

  unfoldable pub is_allowed_instruction_discovery : String → Bool
  is_allowed_instruction_discovery command = elim (sh.split command) [
    | none ↦ false
    | some words ↦ words == "rg" ∷ "--files" ∷ "-g" ∷ "AGENTS.md" ∷ []
  ]

  unfoldable pub is_retry_safe_read_only_command_at : RunState → PathBuf → String → String → Bool
  is_retry_safe_read_only_command_at s expected_cwd cwd command =
      if sh.to_str expected_cwd == some cwd
      then elim (normalize_app_server_command sh command) [
        | none ↦ false
        | some script ↦
            not (is_empty (trim script))
            && not (contains_shell_control sh (trim script))
            && (is_allowed_read_only_git_command sh s (trim script)
                || is_allowed_instruction_discovery (trim script)
                || is_retry_safe_no_index_diff (trim script)
                || is_retry_safe_stale_launcher_skill_read (trim script))
      ]
      else false

  unfoldable pub is_retry_safe_read_only_integration_command : RunState → String → String → Bool
  is_retry_safe_read_only_integration_command s cwd command =
      is_retry_safe_read_only_command_at s s.facts.primary_worktree cwd command

  -- `pattern` stands between the quotes of `git grep -n -E '…' <sha> -- src tests`.
  unfoldable pub is_bad_pattern : String → Bool
  is_bad_pattern pattern =
      is_empty pattern
      || ltb 4096 (len pattern)
      || not (any_char (λ c. c == 124) pattern)
      || any_char (λ c. c == 39 || c == 10 || c == 13 || c == 0) pattern

  unfoldable pub is_retry_safe_reviewer_regex_grep : RunState → String → Bool
  unfolding is_bad_pattern
  is_retry_safe_reviewer_regex_grep s command = elim s.integration_sha [
    | none ↦ false
    | some sha ↦ elim (strip_prefix command "git grep -n -E '") [
      | none ↦ false
      | some rest ↦ elim (strip_suffix rest (append "' " (append sha " -- src tests"))) [
        | none ↦ false
        | some pattern ↦
            not (is_bad_pattern pattern)
            && sh.split command
              == some ("git" ∷ "grep" ∷ "-n" ∷ "-E" ∷ pattern ∷ sha ∷ "--" ∷ "src" ∷ "tests" ∷ [])
      ]
    ]
  ]

  unfoldable pub is_retry_safe_read_only_reviewer_command : RunState → String → String → Bool
  unfolding is_retry_safe_reviewer_regex_grep
  is_retry_safe_read_only_reviewer_command s cwd command =
      if sh.to_str s.facts.reviewer_worktree == some cwd
      then elim (normalize_app_server_command sh command) [
        | none ↦ false
        | some script ↦ is_retry_safe_reviewer_regex_grep s (trim script)
      ]
        || is_retry_safe_read_only_command_at s s.facts.reviewer_worktree cwd command
      else false
