-- ===== src/Policy/Retried.antt =====
-- crates/daemon/src/policy.rs: a command after which a turn may be sent again writes nothing.
use worktree_merge_consensus.Prelude.{
  Bool, true, false, ◌||◌, String, some, List, [], ◌∷◌, contains, Bool-cases, Option-cases, ◌≡◌,
  ◌≢◌, ◌⊎◌, inl, inr, refl, sym, ap, ◌∙◌, arith, subst, eqb, eqb_sound, eqb_complete, ◌==◌,
  string_eq, String-discrete, list_eq, List-discrete, Option-discrete,
}
use worktree_merge_consensus.Prelude.Searches.{All, any-false, contains-All}
use worktree_merge_consensus.Text.{trim}
use worktree_merge_consensus.State.Defs.{RunState}
use worktree_merge_consensus.Policy.Defs.{Shell}
use worktree_merge_consensus.Policy.Words.{
  has_control, contains_shell_control, normalize_app_server_command,
}
use worktree_merge_consensus.Policy.Git.{
  reading_subcommands, git_call, is_allowed_read_only_git_command,
}
use worktree_merge_consensus.Policy.Replay.{
  is_no_index_diff, is_skill_read, is_retry_safe_no_index_diff,
  is_retry_safe_stale_launcher_skill_read, is_allowed_instruction_discovery,
  is_retry_safe_read_only_command_at, is_retry_safe_read_only_integration_command,
}
use worktree_merge_consensus.Policy.Permitted.{Reads, Writes}
use worktree_merge_consensus.Policy.Permitted.Sound.{git_call-words, invocation-Reads}
use worktree_merge_consensus.Policy.Decided.{Discovers}

-- The words of a command after which a turn is sent again.
abbrev pub IsHarmless : Shell → RunState → List String → Type 0
IsHarmless sh s words =
    Reads s words
    ⊎ Discovers words
    ⊎ (is_no_index_diff words ≡ true)
    ⊎ (is_skill_read sh words ≡ true)

-- The command was run in the Primary's worktree and wrote nothing.
abbrev pub IsReplayable : Shell → RunState → String → String → Type 0
IsReplayable sh s cwd command =
    (sh.to_str s.facts.primary_worktree ≡ some cwd)
    × ((script : String) × (words : List String) × (normalize_app_server_command sh command
          ≡ some script)
        × (sh.split (trim script) ≡ some words)
        × All (λ word. has_control word ≡ false) words
        × IsHarmless sh s words
        × (¬ Writes sh s words))

-- The first two words of a git command.
abbrev second : List String → String
second (program ∷ subcommand ∷ rest) = subcommand
second _ = ""

abbrev first : List String → String
first (program ∷ rest) = program
first _ = ""

abbrev writing_subcommands : List String
writing_subcommands = "switch" ∷ "merge" ∷ "add" ∷ "commit" ∷ []

Writes-subcommand :
    (sh : Shell) (s : RunState) (words : List String)
    → Writes sh s words
    → (first words ≡ "git") × (contains writing_subcommands (second words) ≡ true)
unfolding contains eqb String-discrete
Writes-subcommand sh s words (Writes.switches b t u e) = rw e (refl, refl)
Writes-subcommand sh s words (Writes.merges u e) = rw e (refl, refl)
Writes-subcommand sh s words (Writes.adds (inl e)) = rw e (refl, refl)
Writes-subcommand sh s words (Writes.adds (inr e)) = rw e (refl, refl)
Writes-subcommand sh s words (Writes.commits e) = rw e (refl, refl)
Writes-subcommand sh s words (Writes.commits_message m safe e) = rw e (refl, refl)

listed_apart : All (λ w. contains writing_subcommands w ≡ false) reading_subcommands
unfolding contains eqb String-discrete
listed_apart = (refl, (refl, (refl, (refl, (refl, (refl, (refl, (refl, tt))))))))

Reads-second :
    (s : RunState) (words : List String)
    → Reads s words
    → contains writing_subcommands (second words) ≡ false
unfolding contains eqb String-discrete
Reads-second s words (Reads.inspects sub args listed safe e) = rw e (
    contains-All (λ w. contains writing_subcommands w ≡ false) reading_subcommands sub listed_apart
      listed)
Reads-second s words (Reads.shows_branch b t e) = rw e refl
Reads-second s words (Reads.lists_target b t e) = rw e refl
Reads-second s words (Reads.verifies_target b t (inl e)) = rw e refl
Reads-second s words (Reads.verifies_target b t (inr e)) = rw e refl
Reads-second s words (Reads.shows_head e) = rw e refl

skill_read-first :
    (sh : Shell) (words : List String) → is_skill_read sh words ≡ true → first words ≡ "sed"
unfolding is_skill_read
skill_read-first sh [] h = ground arith
skill_read-first sh (a ∷ []) h = ground arith
skill_read-first sh (a ∷ b ∷ []) h = ground arith
skill_read-first sh (a ∷ b ∷ c ∷ []) h = ground arith
skill_read-first sh (a ∷ b ∷ c ∷ d ∷ e ∷ rest) h = ground arith
skill_read-first sh (a ∷ b ∷ c ∷ d ∷ []) h = ap first (
    eqb_sound (List-discrete String-discrete) (a ∷ b ∷ c ∷ []) ("sed" ∷ "-n" ∷ "1,240p" ∷ [])
      (ground arith))

no_index_diff-second : (words : List String) → is_no_index_diff words ≡ true → second words ≡ "diff"
unfolding is_no_index_diff
no_index_diff-second [] h = ground arith
no_index_diff-second (a ∷ []) h = ground arith
no_index_diff-second (a ∷ b ∷ []) h = ground arith
no_index_diff-second (a ∷ b ∷ c ∷ []) h = ground arith
no_index_diff-second (a ∷ b ∷ c ∷ d ∷ []) h = ground arith
no_index_diff-second (a ∷ b ∷ c ∷ d ∷ e ∷ []) h = ground arith
no_index_diff-second (a ∷ b ∷ c ∷ d ∷ e ∷ f ∷ g ∷ rest) h = ground arith
no_index_diff-second (a ∷ b ∷ c ∷ d ∷ e ∷ f ∷ []) h = ap second (
    eqb_sound (List-discrete String-discrete) (a ∷ b ∷ c ∷ d ∷ e ∷ [])
      ("git" ∷ "diff" ∷ "--no-index" ∷ "--" ∷ "/dev/null" ∷ []) (ground arith))

not_written : contains writing_subcommands "diff" ≡ false
unfolding contains eqb String-discrete
not_written = refl

is_git : String → Bool
is_git word = word == "git"

not_git : (is_git "sed" ≡ false) × (is_git "rg" ≡ false)
unfolding is_git eqb String-discrete
not_git = (refl, refl)

other_program : (word : String) → is_git word ≡ false → word ≢ "git"
unfolding is_git
other_program word n e = ground (arith, eqb_complete String-discrete word "git" e)

IsHarmless-Writes :
    (sh : Shell) (s : RunState) (words : List String) → IsHarmless sh s words → ¬ Writes sh s words
IsHarmless-Writes sh s words harmless writes =
    let (program, written) = Writes-subcommand sh s words writes in
    elim harmless [
      | inl r ↦ cc (Reads-second s words r)
      | inr (inl e) ↦ other_program "rg" (not_git.1) (sym (ap first e) ∙ program)
      | inr (inr (inl d)) ↦
          let q = no_index_diff-second words d in
          let w : contains writing_subcommands "diff" ≡ true =
            subst (λ word. contains writing_subcommands word ≡ true) q written in
          cc not_written
      | inr (inr (inr k)) ↦
          other_program "sed" (not_git.0) (sym (skill_read-first sh words k) ∙ program)
    ]

discovers :
    (sh : Shell) (command : String) (words : List String)
    → sh.split command ≡ some words
    → is_allowed_instruction_discovery sh command ≡ true
    → Discovers words
unfolding is_allowed_instruction_discovery
discovers sh command words e h = eqb_sound (List-discrete String-discrete) words _ (ground arith)

module _ (sh : Shell) (s : RunState) where
  Reads-command :
      (command : String) (words : List String)
      → sh.split command ≡ some words
      → is_allowed_read_only_git_command sh s command ≡ true
      → Reads s words
  unfolding is_allowed_read_only_git_command
  Reads-command command words e h = elim (Option-cases (git_call words)) [
    | inl n ↦ ground arith
    | inr ((sub, rest), c) ↦
        rw (git_call-words sh s words sub rest c) (invocation-Reads s rest sub (ground arith))
  ]

  harmless :
      (command : String) (words : List String)
      → sh.split command ≡ some words
      → (is_allowed_read_only_git_command sh s command
          || is_allowed_instruction_discovery sh command
          || is_retry_safe_no_index_diff sh command
          || is_retry_safe_stale_launcher_skill_read sh command)
        ≡ true
      → IsHarmless sh s words
  unfolding is_retry_safe_no_index_diff is_retry_safe_stale_launcher_skill_read
  harmless command words e h = elim (Bool-cases (is_allowed_read_only_git_command sh s command)) [
    | inl reading ↦ inl (Reads-command command words e reading)
    | inr n ↦ elim (Bool-cases (is_allowed_instruction_discovery sh command)) [
      | inl found ↦ inr (inl (discovers sh command words e found))
      | inr m ↦ elim (Bool-cases (is_no_index_diff words)) [
        | inl diff ↦ inr (inr (inl diff))
        | inr k ↦ inr (inr (inr (ground arith)))
      ]
    ]
  ]

  -- A command that may have run in the Primary's worktree before its turn is sent again was run
  -- there, and its words are a call of git that reads, the search for instructions, a comparison with
  -- `/dev/null`, or a read of the skill: none of the calls of git that write.
  pub retry_safe-IsHarmless :
      (cwd command : String)
      → is_retry_safe_read_only_integration_command sh s cwd command ≡ true
      → IsReplayable sh s cwd command
  unfolding is_retry_safe_read_only_integration_command is_retry_safe_read_only_command_at
      contains_shell_control
  retry_safe-IsHarmless cwd command h = (
    eqb_sound (Option-discrete String-discrete) (sh.to_str s.facts.primary_worktree) (some cwd)
        (ground arith),
    elim (Option-cases (normalize_app_server_command sh command)) [
      | inl e ↦ ground arith
      | inr (script, e) ↦ elim (Option-cases (sh.split (trim script))) [
        | inl f ↦ ground arith
        | inr (words, f) ↦
            let safe = harmless (trim script) words f (ground arith) in
            (
              script,
              words,
              e,
              f,
              any-false has_control words (ground arith),
              safe,
              IsHarmless-Writes sh s words safe,
            )
      ]
    ],
  )
