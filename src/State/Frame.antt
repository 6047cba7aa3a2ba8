-- ===== src/State/Frame.antt =====
-- crates/core/src/state.rs: what the operations on a run never change: the frozen sources, the limits
-- of the rounds and, once the policy is frozen, its branch and the test commands that it has.
pub mod Messages
pub mod Operations
use worktree_merge_consensus.Prelude.{
  Bool, true, String, string_eq, List, [], ◌∷◌, ◌++◌, ◌≡◌, refl, arith, is_some, contains,
  Bool-cases, inl, inr,
}
use worktree_merge_consensus.State.Defs.{RunState}
use worktree_merge_consensus.State.Evidence.{freeze_commands}

-- The second list begins with the first.
abbrev pub IsPrefix : List String → List String → Type 0
IsPrefix [] ys = Unit {0}
IsPrefix (x ∷ xs) [] = ⊥
IsPrefix (x ∷ xs) (y ∷ ys) = (x ≡ y) × IsPrefix xs ys

pub IsPrefix-refl : (xs : List String) → IsPrefix xs xs
IsPrefix-refl [] = tt
IsPrefix-refl (x ∷ xs) = (refl, IsPrefix-refl xs)

pub IsPrefix-trans : (xs ys zs : List String) → IsPrefix xs ys → IsPrefix ys zs → IsPrefix xs zs
IsPrefix-trans [] ys zs p q = tt
IsPrefix-trans (x ∷ xs) [] zs p q = absurd p
IsPrefix-trans (x ∷ xs) (y ∷ ys) [] p q = absurd q
IsPrefix-trans (x ∷ xs) (y ∷ ys) (z ∷ zs) (p, ps) (q, qs) =
    (ground arith, IsPrefix-trans xs ys zs ps qs)

IsPrefix-append : (xs ys : List String) → IsPrefix xs (xs ++ ys)
IsPrefix-append [] ys = tt
IsPrefix-append (x ∷ xs) ys = (refl, IsPrefix-append xs ys)

-- Freezing adds commands at the end.
pub freeze_commands-IsPrefix :
    (required commands : List String) → IsPrefix required (freeze_commands required commands)
unfolding freeze_commands
freeze_commands-IsPrefix required [] = IsPrefix-refl required
freeze_commands-IsPrefix required (c ∷ cs) = elim (Bool-cases (contains required c)) [
  | inl there ↦ rw there (freeze_commands-IsPrefix required cs)
  | inr new ↦ rw new (
      IsPrefix-trans required (required ++ (c ∷ [])) _ (IsPrefix-append required (c ∷ []))
        (freeze_commands-IsPrefix (required ++ (c ∷ [])) cs))
]

-- `t` comes after `s` in the same run.
pub record Extends (s t : RunState) : Type 0 where
  pub facts : t.facts ≡ s.facts
  pub schema : t.schema_version ≡ s.schema_version
  pub rounds : t.max_review_rounds ≡ s.max_review_rounds
  pub limit : t.no_progress_rounds ≡ s.no_progress_rounds
  pub target :
      is_some s.target_integration_branch ≡ true
      → t.target_integration_branch ≡ s.target_integration_branch
  pub commands :
      is_some s.target_integration_branch ≡ true
      → IsPrefix s.required_test_commands t.required_test_commands

pub Extends-refl : (s : RunState) → Extends s s
Extends-refl s = record {
  facts = refl;
  schema = refl;
  rounds = refl;
  limit = refl;
  target = λ _. refl;
  commands = λ _. IsPrefix-refl s.required_test_commands;
}
