-- ===== src/State/Commands.antt =====
-- crates/core/src/state.rs: the commands that a run freezes, in `configure_integration` and
-- `freeze_test_commands`, stand in the list once each.
pub mod Reached
use mathlib.Core.List.{Nodup, Nodup-cons, Nodup-nil, Mem, mem-cons}
use mathlib.Core.Logic.Or
use worktree_merge_consensus.Prelude.Results.{ok, err, Result-cases}
use worktree_merge_consensus.Json.{Value, as_str}
use worktree_merge_consensus.Prelude.{
  string_eq, any, Option-cases, subst, ◌≡◌, ◌≢◌, ◌⊎◌, inl, inr, Bool-cases, true, false, refl,
  arith, String, List, [], ◌∷◌, ◌++◌, contains, eqb_complete, eqb_sound, String-discrete,
}
use worktree_merge_consensus.Prelude.Searches.{
  All, any-false, contains-true, contains-false, not-mem_of_contains,
}
use worktree_merge_consensus.Text.{trim, is_blank, is_empty}
use worktree_merge_consensus.Text.Trimmed.{is_blank-trim}
use worktree_merge_consensus.State.Evidence.{
  freeze_commands, command_entry, collect, string_array_field, nonempty_array,
}
use worktree_merge_consensus.State.Control.{normalize_tests}

contains-append :
    (xs : List String) (c x : String)
    → contains xs x ≡ false
    → c ≢ x
    → contains (xs ++ (c ∷ [])) x ≡ false
unfolding contains
contains-append [] c x h n = ground (arith, eqb_sound String-discrete c x)
contains-append (y ∷ xs) c x h n = ground (arith, contains-append xs c x)

Nodup-append :
    (xs : List String) (c : String) → Nodup xs → contains xs c ≡ false → Nodup (xs ++ (c ∷ []))
unfolding contains
Nodup-append [] c n h = Nodup-cons.1 (not-mem_of_contains [] c refl, Nodup-nil)
Nodup-append (x ∷ xs) c n h =
    let (absent, distinct) = Nodup-cons.0 n in
    Nodup-cons.1 (
      not-mem_of_contains (xs ++ (c ∷ [])) x (
          contains-append xs c x (contains-false xs x absent)
            (λ e. ground (arith, eqb_complete String-discrete x c, e))),
      Nodup-append xs c distinct (ground arith),
    )

-- Each command once, and none blank.
pub record IsFrozen (commands : List String) : Type 0 where
  pub distinct : Nodup commands
  pub nonblank : All (λ c. is_blank c ≡ false) commands

All-append :
    (xs : List String) (c : String)
    → All (λ c. is_blank c ≡ false) xs
    → is_blank c ≡ false
    → All (λ c. is_blank c ≡ false) (xs ++ (c ∷ []))
All-append [] c a h = (h, tt)
All-append (x ∷ xs) c (a, as') h = (a, All-append xs c as' h)

IsFrozen-append :
    (xs : List String) (c : String)
    → IsFrozen xs
    → is_blank c ≡ false
    → contains xs c ≡ false
    → IsFrozen (xs ++ (c ∷ []))
IsFrozen-append xs c f h new = record {
  distinct = Nodup-append xs c f.distinct new;
  nonblank = All-append xs c f.nonblank h;
}

pub IsFrozen-nil : IsFrozen []
IsFrozen-nil = record { distinct = Nodup-nil; nonblank = tt }

pub freeze_commands-IsFrozen :
    (required commands : List String)
    → IsFrozen required
    → All (λ c. is_blank c ≡ false) commands
    → IsFrozen (freeze_commands required commands)
unfolding freeze_commands
freeze_commands-IsFrozen required [] f a = f
freeze_commands-IsFrozen required (c ∷ cs) f (a, as') = elim (Bool-cases (contains required c)) [
  | inl there ↦ rw there (freeze_commands-IsFrozen required cs f as')
  | inr new ↦
      rw new (
        freeze_commands-IsFrozen (required ++ (c ∷ [])) cs (IsFrozen-append required c f a new) as')
]

normalize_tests-IsFrozen :
    (normalized commands : List String)
    → IsFrozen normalized
    → All (λ c. is_blank c ≡ false) commands
    → IsFrozen (normalize_tests normalized commands)
unfolding normalize_tests
normalize_tests-IsFrozen normalized [] f a = f
normalize_tests-IsFrozen normalized (c ∷ cs) f (a, as') =
    elim (Bool-cases (contains normalized (trim c))) [
      | inl there ↦ rw there (normalize_tests-IsFrozen normalized cs f as')
      | inr new ↦ rw new (
          normalize_tests-IsFrozen (normalized ++ (trim c ∷ [])) cs
            (IsFrozen-append normalized (trim c) f (is_blank-trim c a) new) as')
    ]

-- The commands that a configuration normalises, where none of them is blank.
pub configured-IsFrozen :
    (commands : List String)
    → any is_blank commands ≡ false
    → IsFrozen (normalize_tests [] commands)
configured-IsFrozen commands h =
    normalize_tests-IsFrozen [] commands IsFrozen-nil (any-false is_blank commands h)

blank_text : (s : String) → is_blank s ≡ is_empty (trim s)
unfolding is_blank
blank_text s = refl

command_entry-nonblank : (v : Value) {c : String} → command_entry v ≡ ok c → is_blank c ≡ false
unfolding command_entry
command_entry-nonblank v h = elim (Option-cases (as_str v)) [
  | inl none_there ↦ absurd (ground arith)
  | inr (text, found) ↦ ground (arith, is_blank-trim text, blank_text text)
]

collect-nonblank :
    (vs : List Value) (cs : List String)
    → collect command_entry vs ≡ ok cs
    → All (λ c. is_blank c ≡ false) cs
unfolding collect
collect-nonblank [] cs h =
    let e : [] ≡ cs = ground arith in subst (All (λ c. is_blank c ≡ false)) e tt
collect-nonblank (v ∷ vs) cs h = elim (Result-cases (command_entry v)) [
  | inl (c, entry) ↦ elim (Result-cases (collect command_entry vs)) [
    | inl (bs, rest) ↦
        let e : (c ∷ bs) ≡ cs = ground arith in
        subst (All (λ c. is_blank c ≡ false)) e
          (command_entry-nonblank v entry, collect-nonblank vs bs rest)
    | inr (x, lost) ↦ absurd (ground arith)
  ]
  | inr (x, lost) ↦ absurd (ground arith)
]

-- The commands that a contract or a plan adds, where they are read.
pub string_array_field-nonblank :
    (value : Value) (name : String) (cs : List String)
    → string_array_field value name ≡ ok cs
    → All (λ c. is_blank c ≡ false) cs
unfolding string_array_field
string_array_field-nonblank value name cs h = elim (Result-cases (nonempty_array value name)) [
  | inl (vs, found) ↦ collect-nonblank vs cs (ground arith)
  | inr (x, lost) ↦ absurd (ground arith)
]
