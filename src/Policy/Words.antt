-- ===== src/Policy/Words.antt =====
-- crates/daemon/src/policy.rs: the tests of a command's words.
use Prim.Native.Char.{code}
use worktree_merge_consensus.Prelude.{
  ℕ, Bool, true, false, not, ◌&&◌, ◌||◌, String, Option, none, some, List, [], ◌∷◌, any, contains,
  if◌then◌else◌, ◌==◌, nat_eq, string_eq, ◌≡◌, refl, eqb, String-discrete,
}
use native.Mathlib.Decide.{ℕ_discrete}
use worktree_merge_consensus.Text.{trim, is_empty, is_blank}
use worktree_merge_consensus.Text.Parts.{any_char}
use worktree_merge_consensus.Policy.Defs.{Shell}

unfoldable pub is_control : ℕ → Bool
is_control c =
    c == 59
    || c == 38
    || c == 124
    || c == 62
    || c == 60
    || c == 96
    || c == 36
    || c == 10
    || c == 13
    || c == 0

-- `/` and `\`.
unfoldable pub is_separator : ℕ → Bool
is_separator c = c == 47 || c == 92

-- The text behind the last separator.
unfoldable pub executable_name : String → String
unfolding any_char is_separator
executable_name String.[] = String.[]
executable_name (String.◌∷◌ c s) =
    let rest = executable_name s in
    if any_char is_separator s then rest else if is_separator (code c) then s else String.◌∷◌ c s

abbrev shells : List String
shells = "sh" ∷ "bash" ∷ "dash" ∷ "zsh" ∷ "fish" ∷ []

abbrev launchers : List String
launchers =
    "sh" ∷ "bash" ∷ "dash" ∷ "zsh" ∷ "fish" ∷ "cmd" ∷ "powershell" ∷ "pwsh" ∷ "python" ∷ "python3"
    ∷ "perl" ∷ "ruby" ∷ "node" ∷ []

abbrev inline_flags : List String
inline_flags = "-c" ∷ "--command" ∷ "-Command" ∷ "-EncodedCommand" ∷ "-e" ∷ []

unfoldable pub is_launcher : String → Bool
unfolding executable_name
is_launcher word = contains launchers (executable_name word)

unfoldable pub is_inline_flag : String → Bool
is_inline_flag word = contains inline_flags word

-- Some launcher has a flag for inline code behind it.
unfoldable pub launches : List String → Bool
unfolding is_launcher is_inline_flag
launches [] = false
launches (word ∷ words) = (is_launcher word && any is_inline_flag words) || launches words

unfoldable pub names_git : String → Bool
unfolding executable_name
names_git word = executable_name word == "git"

unfoldable pub has_control : String → Bool
unfolding any_char is_control
has_control word = any_char is_control word

-- The script of a shell that is called as `sh -c script`.
abbrev script_of : List String → Option String
script_of (shell ∷ flag ∷ script ∷ []) =
    if contains shells (executable_name shell) && (flag == "-c" || flag == "-lc")
    then some script
    else none
script_of _ = none

module _ (sh : Shell) where
  -- What cannot be split counts as forbidden.
  unfoldable pub contains_shell_control : String → Bool
  unfolding has_control
  contains_shell_control command = elim (sh.split command) [
    | none ↦ true
    | some words ↦ any has_control words
  ]

  unfoldable pub contains_forbidden_git_operation : String → Bool
  unfolding names_git
  contains_forbidden_git_operation command = elim (sh.split command) [
    | none ↦ true
    | some words ↦ any names_git words
  ]

  unfoldable pub uses_dynamic_command_launcher : String → Bool
  unfolding launches
  uses_dynamic_command_launcher command = elim (sh.split command) [
    | none ↦ true
    | some words ↦ launches words
  ]

  unfoldable pub validate_test_command : String → Bool
  unfolding contains_shell_control contains_forbidden_git_operation uses_dynamic_command_launcher
  validate_test_command command =
      not (is_empty (trim command))
      && not (contains_shell_control (trim command))
      && not (contains_forbidden_git_operation (trim command))
      && not (uses_dynamic_command_launcher (trim command))

  -- The script of a shell, any other command as it is, and none for a blank text or script.
  unfoldable pub normalize_app_server_command : String → Option String
  unfolding executable_name
  normalize_app_server_command command =
      if is_blank command then none else elim (sh.split command) [
        | none ↦ none
        | some words ↦ elim (script_of words) [
          | none ↦ some command
          | some script ↦ if is_blank script then none else some script
        ]
      ]

names : executable_name "/usr/bin/git" ≡ "git"
unfolding executable_name eqb ℕ_discrete
names = refl

starts_code : launches ("env" ∷ "/bin/bash" ∷ "-x" ∷ "-c" ∷ "ls" ∷ []) ≡ true
unfolding launches contains any eqb ℕ_discrete String-discrete
starts_code = refl
