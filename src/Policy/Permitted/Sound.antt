-- ===== src/Policy/Permitted/Sound.antt =====
-- crates/daemon/src/policy.rs: a call of git that the tests let through is a listed one.
use worktree_merge_consensus.Prelude.{
  true, false, not, ◌||◌, String, Option, none, some, List, [], ◌∷◌, contains, is_some, Bool-cases,
  Option-cases, ◌≡◌, ◌⊎◌, inl, inr, refl, sym, ◌∙◌, ap, arith, ◌==◌, eqb_sound, string_eq,
  option_eq, list_eq, String-discrete, List-discrete, Option-discrete,
}
use worktree_merge_consensus.Prelude.Searches.{any-false}
use worktree_merge_consensus.Text.{append}
use worktree_merge_consensus.State.Defs.{RunState}
use worktree_merge_consensus.Policy.Defs.{Shell}
use worktree_merge_consensus.Policy.Git.{
  is_unsafe_argument, safe_read_only_git_arguments, safe_branch_arguments, safe_show_ref_arguments,
  reading_subcommands, is_allowed_read_only_git_invocation, git_call, corrective_integration,
  is_target_switch, is_safe_commit, is_allowed_git_write, is_allowed_git_command,
}
use worktree_merge_consensus.Policy.Permitted.Reads.{
  inspects, shows_branch, lists_target, verifies_target, shows_head,
}
use worktree_merge_consensus.Policy.Permitted.Writes.{
  switches, merges, adds, commits, commits_message,
}
use worktree_merge_consensus.Policy.Permitted.{Reads, Unintegrated, Writes}

same_words : (a b : List String) → (a == b) ≡ true → a ≡ b
same_words a b h = eqb_sound (List-discrete String-discrete) a b h

same : (a b : String) → (a == b) ≡ true → a ≡ b
same a b h = eqb_sound String-discrete a b h

module _ (s : RunState) (arguments : List String) where
  branch-Reads : safe_branch_arguments s arguments ≡ true → Reads s ("git" ∷ "branch" ∷ arguments)
  unfolding safe_branch_arguments
  branch-Reads h = elim (Option-cases s.target_integration_branch) [
    | inl empty ↦ ground arith
    | inr (branch, target) ↦ elim (Bool-cases (arguments == "--show-current" ∷ [])) [
      | inl current ↦
          shows_branch branch target
            (ap (λ rest. "git" ∷ "branch" ∷ rest) (same_words arguments _ current))
      | inr other ↦
          lists_target branch target
            (ap (λ rest. "git" ∷ "branch" ∷ rest) (same_words arguments _ (ground arith)))
    ]
  ]

  show_ref-Reads :
      safe_show_ref_arguments s arguments ≡ true → Reads s ("git" ∷ "show-ref" ∷ arguments)
  unfolding safe_show_ref_arguments
  show_ref-Reads h = elim (Option-cases s.target_integration_branch) [
    | inl empty ↦ ground arith
    | inr (branch, target) ↦
        elim (Bool-cases (arguments == "--verify" ∷ append "refs/heads/" branch ∷ [])) [
          | inl plain ↦
              verifies_target branch target
                (inl (ap (λ rest. "git" ∷ "show-ref" ∷ rest) (same_words arguments _ plain)))
          | inr other ↦
              verifies_target branch target (
                inr
                  (ap (λ rest. "git" ∷ "show-ref" ∷ rest) (same_words arguments _ (ground arith))))
        ]
  ]

  other-Reads :
      (subcommand : String)
      → contains reading_subcommands subcommand ≡ false
      → is_allowed_read_only_git_invocation s subcommand arguments ≡ true
      → Reads s ("git" ∷ subcommand ∷ arguments)
  unfolding is_allowed_read_only_git_invocation
  other-Reads subcommand unlisted h = elim (Bool-cases (subcommand == "branch")) [
    | inl e ↦ rw (same subcommand "branch" e) (branch-Reads (ground arith))
    | inr n ↦ elim (Bool-cases (subcommand == "show-ref")) [
      | inl e ↦ rw (same subcommand "show-ref" e) (show_ref-Reads (ground arith))
      | inr m ↦ shows_head (
          ap (λ word. "git" ∷ word ∷ arguments) (same subcommand "symbolic-ref" (ground arith))
          ∙ ap (λ rest. "git" ∷ "symbolic-ref" ∷ rest) (same_words arguments _ (ground arith)))
    ]
  ]

  pub invocation-Reads :
      (subcommand : String)
      → is_allowed_read_only_git_invocation s subcommand arguments ≡ true
      → Reads s ("git" ∷ subcommand ∷ arguments)
  invocation-Reads subcommand h = elim (Bool-cases (contains reading_subcommands subcommand)) [
    | inl listed ↦
        inspects subcommand arguments listed
          (any-false is_unsafe_argument arguments (
            unfold is_allowed_read_only_git_invocation safe_read_only_git_arguments in
            ground arith))
          refl
    | inr unlisted ↦ other-Reads subcommand unlisted h
  ]

is_some-none : {A : Type 0} (o : Option A) → is_some o ≡ false → o ≡ none
is_some-none none h = refl
is_some-none (some a) h = ground arith

module _ (sh : Shell) (s : RunState) where
  unintegrated : not (corrective_integration s) ≡ true → Unintegrated s
  unfolding corrective_integration
  unintegrated h = (
    is_some-none s.integration_branch (ground arith),
    is_some-none s.integration_sha (ground arith),
    is_some-none s.current_integration_payload (ground arith),
  )

  switch-Writes :
      (rest : List String)
      → Unintegrated s
      → is_target_switch s rest ≡ true
      → Writes sh s ("git" ∷ "switch" ∷ rest)
  unfolding is_target_switch
  switch-Writes [] u h = ground arith
  switch-Writes (a ∷ []) u h = ground arith
  switch-Writes (a ∷ b ∷ []) u h = ground arith
  switch-Writes (a ∷ b ∷ c ∷ d ∷ rest) u h = ground arith
  switch-Writes (a ∷ b ∷ c ∷ []) u h =
      switches b
        (sym (
          eqb_sound (Option-discrete String-discrete) (some b) s.target_integration_branch
            (ground arith)))
        u
        (ap (λ word. "git" ∷ "switch" ∷ word ∷ b ∷ c ∷ []) (same a "-c" (ground arith))
          ∙ ap (λ word. "git" ∷ "switch" ∷ "-c" ∷ b ∷ word ∷ [])
              (same c s.facts.primary_sha (ground arith)))

  commit-Writes :
      (rest : List String) → is_safe_commit sh rest ≡ true → Writes sh s ("git" ∷ "commit" ∷ rest)
  unfolding is_safe_commit
  commit-Writes [] h = ground arith
  commit-Writes (a ∷ []) h = ground arith
  commit-Writes (a ∷ b ∷ c ∷ rest) h = ground arith
  commit-Writes (a ∷ b ∷ []) h =
      commits_message b (ground arith)
        (ap (λ word. "git" ∷ "commit" ∷ word ∷ b ∷ []) (same a "-m" (ground arith)))

  merge-Writes :
      (rest : List String)
      → Unintegrated s
      → (rest == "--no-ff" ∷ "--no-edit" ∷ s.facts.reviewer_sha ∷ []) ≡ true
      → Writes sh s ("git" ∷ "merge" ∷ rest)
  merge-Writes rest u h = merges u (ap (λ rest. "git" ∷ "merge" ∷ rest) (same_words rest _ h))

  add-Writes :
      (rest : List String)
      → (rest == "-A" ∷ [] || rest == "--all" ∷ []) ≡ true
      → Writes sh s ("git" ∷ "add" ∷ rest)
  add-Writes rest h = elim (Bool-cases (rest == "-A" ∷ [])) [
    | inl short ↦ adds (inl (ap (λ rest. "git" ∷ "add" ∷ rest) (same_words rest _ short)))
    | inr n ↦ adds (inr (ap (λ rest. "git" ∷ "add" ∷ rest) (same_words rest _ (ground arith))))
  ]

  any_commit-Writes :
      (rest : List String)
      → (rest == "--no-edit" ∷ [] || is_safe_commit sh rest) ≡ true
      → Writes sh s ("git" ∷ "commit" ∷ rest)
  any_commit-Writes rest h = elim (Bool-cases (rest == "--no-edit" ∷ [])) [
    | inl e ↦ commits (ap (λ rest. "git" ∷ "commit" ∷ rest) (same_words rest _ e))
    | inr n ↦ commit-Writes rest (ground arith)
  ]

  write-Writes :
      (subcommand : String) (rest : List String)
      → is_allowed_git_write sh s subcommand rest ≡ true
      → Writes sh s ("git" ∷ subcommand ∷ rest)
  unfolding is_allowed_git_write
  write-Writes subcommand rest h = elim (Bool-cases (subcommand == "switch")) [
    | inl e ↦
        rw (same subcommand "switch" e)
          (switch-Writes rest (unintegrated (ground arith)) (ground arith))
    | inr n1 ↦ elim (Bool-cases (subcommand == "merge")) [
      | inl e ↦
          rw (same subcommand "merge" e)
            (merge-Writes rest (unintegrated (ground arith)) (ground arith))
      | inr n2 ↦ elim (Bool-cases (subcommand == "add")) [
        | inl e ↦ rw (same subcommand "add" e) (add-Writes rest (ground arith))
        | inr n3 ↦
            rw (same subcommand "commit" (ground arith)) (any_commit-Writes rest (ground arith))
      ]
    ]
  ]

  pub git_call-words :
      (words : List String) (subcommand : String) (rest : List String)
      → git_call words ≡ some (subcommand, rest)
      → words ≡ "git" ∷ subcommand ∷ rest
  git_call-words [] subcommand rest h = cc
  git_call-words (program ∷ []) subcommand rest h = cc
  git_call-words (program ∷ sub ∷ words) subcommand rest h =
      ground (arith, eqb_sound String-discrete program "git")

  -- A command that is allowed as a call of git is one of those listed.
  pub git_command-listed :
      (command : String)
      → is_allowed_git_command sh s command ≡ true
      → (words : List String) × (sh.split command ≡ some words)
        × (Reads s words ⊎ Writes sh s words)
  unfolding is_allowed_git_command
  git_command-listed command h = elim (Option-cases (sh.split command)) [
    | inl e ↦ ground arith
    | inr (words, e) ↦ elim (Option-cases (git_call words)) [
      | inl n ↦ ground arith
      | inr ((sub, rest), c) ↦ (
        words,
        e,
        elim (Bool-cases (is_allowed_read_only_git_invocation s sub rest)) [
          | inl reading ↦
              inl (rw (git_call-words words sub rest c) (invocation-Reads s rest sub reading))
          | inr other ↦
              inr (rw (git_call-words words sub rest c) (write-Writes sub rest (ground arith)))
        ],
      )
    ]
  ]
