-- ===== src/Policy/Decided.antt =====
-- crates/daemon/src/policy.rs: what a command is that the daemon allows.
use worktree_merge_consensus.Prelude.{
  Bool, true, false, String, Option, some, List, [], ◌∷◌, ◌&&◌, ◌||◌, Bool-cases, Option-cases, ◌≡◌,
  ◌⊎◌, ◌↔◌, inl, inr, refl, arith, ◌==◌, eqb_sound, string_eq, option_eq, list_eq, String-discrete,
  List-discrete, Option-discrete, subst,
}
use mathlib.Core.List.{Mem}
use worktree_merge_consensus.Prelude.Searches.{All, any-false, any-true}
use worktree_merge_consensus.Text.{trim}
use worktree_merge_consensus.Json.{Value, get, as_str}
use worktree_merge_consensus.State.Defs.{NextAction, RunState}
use worktree_merge_consensus.Policy.Defs.{ApprovalDecision, Shell}
use worktree_merge_consensus.Policy.Words.{
  has_control, names_git, launches, contains_shell_control, contains_forbidden_git_operation,
  uses_dynamic_command_launcher, normalize_app_server_command, validate_test_command,
}
use worktree_merge_consensus.Policy.Git.{is_allowed_git_command}
use worktree_merge_consensus.Policy.Replay.{is_allowed_instruction_discovery}
use worktree_merge_consensus.Policy.Approval.{
  and_then, expected_cwd, asks_more, is_required_test, is_in_allowlist, check_command,
  command_approval_denial, decide_command_approval,
}
use worktree_merge_consensus.Policy.Permitted.{Reads, Writes}
use worktree_merge_consensus.Policy.Permitted.Sound.{git_command-listed}
use worktree_merge_consensus.Policy.Permitted.Complete.{listed-git_command}

-- Split into words, the command is a listed call of git.
abbrev pub IsListed : Shell → RunState → String → Type 0
IsListed sh s command =
    (words : List String) × (sh.split command ≡ some words) × (Reads s words ⊎ Writes sh s words)

-- A command is allowed as a call of git exactly where its words are a listed call: one that reads
-- with no unsafe argument, one on the target branch, or one of the writes that an integration needs.
pub is_allowed_git_command-IsListed :
    (sh : Shell) (s : RunState) (command : String)
    → (is_allowed_git_command sh s command ≡ true) ↔ IsListed sh s command
is_allowed_git_command-IsListed sh s command = (
  git_command-listed sh s command,
  λ (words, e, listed). listed-git_command sh s command words e listed,
)

-- The search for instruction files.
abbrev pub Discovers : List String → Type 0
Discovers words = words ≡ "rg" ∷ "--files" ∷ "-g" ∷ "AGENTS.md" ∷ []

-- The command of a frozen test, which neither calls git nor hands code to an interpreter.
abbrev pub IsTest : RunState → String → List String → Type 0
IsTest s command words =
    ((required : String) × Mem required s.required_test_commands × (trim required ≡ command))
    × All (λ word. names_git word ≡ false) words
    × (launches words ≡ false)

-- The commands of the turn that is pending.
abbrev pub BelongsTo : Shell → RunState → String → List String → Type 0
BelongsTo sh s command words =
    ((s.next_action ≡ NextAction.request_primary_integration)
      × (Reads s words ⊎ Writes sh s words ⊎ Discovers words))
    ⊎ ((s.next_action ≡ NextAction.request_primary_verification) × IsTest s command words)

-- The request names the worktree of the pending action and asks for no further permission, and the
-- command's words have no control characters of a shell and belong to the turn.
abbrev pub IsPermitted : Shell → RunState → Value → Type 0
IsPermitted sh s params =
    (script : String) × (words : List String) × (and_then (and_then (get params "command") as_str)
        (normalize_app_server_command sh)
      ≡ some script)
    × (sh.split (trim script) ≡ some words)
    × All (λ word. has_control word ≡ false) words
    × BelongsTo sh s (trim script) words
    × (and_then (get params "cwd") as_str ≡ and_then (expected_cwd s) (sh.to_str))
    × (asks_more params ≡ false)

-- The actions that run commands.
abbrev runs_commands : NextAction → Bool
runs_commands NextAction.request_primary_integration = true
runs_commands NextAction.request_primary_verification = true
runs_commands _ = false

action_cases :
    (a : NextAction)
    → (a ≡ NextAction.request_primary_integration)
      ⊎ (a ≡ NextAction.request_primary_verification)
      ⊎ (runs_commands a ≡ false)
action_cases NextAction.request_primary_integration = inl refl
action_cases NextAction.request_primary_verification = inr (inl refl)
action_cases NextAction.request_primary_contract = inr (inr refl)
action_cases NextAction.request_reviewer_contract = inr (inr refl)
action_cases NextAction.request_primary_plan = inr (inr refl)
action_cases NextAction.request_reviewer_plan_verdict = inr (inr refl)
action_cases NextAction.request_reviewer_result_verdict = inr (inr refl)
action_cases NextAction.revalidate_and_accept = inr (inr refl)
action_cases NextAction.wait_for_user = inr (inr refl)
action_cases NextAction.stop = inr (inr refl)

same : {o : Option (List String)} (a b : List String) → o ≡ some b → o ≡ some a → a ≡ b
same a b p q = cc

module _ (sh : Shell) (s : RunState) where
  integration-facts :
      (command : String) (words : List String)
      → sh.split command ≡ some words
      → (is_allowed_git_command sh s command || is_allowed_instruction_discovery sh command) ≡ true
      → Reads s words ⊎ Writes sh s words ⊎ Discovers words
  integration-facts command words e h = elim (Bool-cases (is_allowed_git_command sh s command)) [
    | inl git ↦ listed (git_command-listed sh s command git)
    | inr other ↦ inr (
        inr (
          eqb_sound (List-discrete String-discrete) words _
            (unfold is_allowed_instruction_discovery in ground arith)))
  ]
    where
      listed : IsListed sh s command → Reads s words ⊎ Writes sh s words ⊎ Discovers words
      listed (words', e', inl r) = inl (subst (Reads s) (same words' words e e') r)
      listed (words', e', inr w) = inr (inl (subst (Writes sh s) (same words' words e e') w))

  IsTest-facts :
      (command : String) (words : List String)
      → sh.split command ≡ some words
      → is_required_test sh s command ≡ true
      → IsTest s command words
  unfolding is_required_test validate_test_command contains_forbidden_git_operation
      uses_dynamic_command_launcher
  IsTest-facts command words e h =
      let (required, m, holds) =
        any-true (λ required. trim required == command && validate_test_command sh required)
          s.required_test_commands h in
      let p = eqb_sound String-discrete (trim required) command (ground arith) in
      let split : sh.split (trim required) ≡ some words = rw p e in
      ((required, m, p), any-false names_git words (ground arith), ground arith)

  plain_words :
      (command : String) (words : List String)
      → sh.split command ≡ some words
      → contains_shell_control sh command ≡ false
      → All (λ word. has_control word ≡ false) words
  unfolding contains_shell_control
  plain_words command words e h = any-false has_control words (ground arith)

  allowlist-BelongsTo :
      (command : String) (words : List String)
      → sh.split command ≡ some words
      → is_in_allowlist sh s command ≡ true
      → BelongsTo sh s command words
  unfolding is_in_allowlist
  allowlist-BelongsTo command words e h = elim (action_cases s.next_action) [
    | inl integration ↦ inl (integration, integration-facts command words e (ground arith))
    | inr (inl verification) ↦ inr (verification, IsTest-facts command words e (ground arith))
    | inr (inr other) ↦ ground arith
  ]

  split_of_control :
      (command : String)
      → contains_shell_control sh command ≡ false
      → (words : List String) × (sh.split command ≡ some words)
  unfolding contains_shell_control
  split_of_control command h = elim (Option-cases (sh.split command)) [
    | inl e ↦ ground arith
    | inr found ↦ found
  ]

  check-facts :
      (params : Value) (script : String)
      → and_then (and_then (get params "command") as_str) (normalize_app_server_command sh)
        ≡ some script
      → decide_command_approval sh s params ≡ ApprovalDecision.accept
      → (and_then (get params "cwd") as_str ≡ and_then (expected_cwd s) (sh.to_str))
        × (asks_more params ≡ false)
        × (contains_shell_control sh (trim script) ≡ false)
        × (is_in_allowlist sh s (trim script) ≡ true)
  unfolding decide_command_approval command_approval_denial check_command
  check-facts params script e h = (
    eqb_sound (Option-discrete String-discrete) (and_then (get params "cwd") as_str)
        (and_then (expected_cwd s) (sh.to_str)) (ground arith),
    ground arith,
    ground arith,
    ground arith,
  )

  -- A command that is allowed asks for no further permission, names the worktree that the pending
  -- action runs in, and splits into words without a shell's control characters. They are a listed
  -- call of git or the search for instructions if the integration is pending, and a frozen test,
  -- without git and without inline code, if the verification is.
  pub decide_command_approval-BelongsTo :
      (params : Value)
      → decide_command_approval sh s params ≡ ApprovalDecision.accept
      → IsPermitted sh s params
  decide_command_approval-BelongsTo params h =
      elim (Option-cases
        (and_then (and_then (get params "command") as_str) (normalize_app_server_command sh))) [
          | inl absent ↦
              unfold decide_command_approval command_approval_denial check_command in ground arith
          | inr (script, e) ↦
              let (cwd, more, control, listed) = check-facts params script e h in
              let (words, split) = split_of_control (trim script) control in
              (
                script,
                words,
                e,
                split,
                plain_words (trim script) words split control,
                allowlist-BelongsTo (trim script) words split listed,
                cwd,
                more,
              )
        ]
