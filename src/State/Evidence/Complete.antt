-- ===== src/State/Evidence/Complete.antt =====
-- When the evidence of a verification is complete: the specification of
-- `validate_complete_test_evidence`, and that the check decides it.
use mathlib.Core.List.{Nodup, Nodup-cons, Nodup-nil, Perm}
use worktree_merge_consensus.Prelude.{
  suc, false, ◌||◌, String, List, [], ◌∷◌, ◌++◌, map, any, is_nil, length, count_of, contains, ◌==◌,
  ◌!=◌, nat_eq, string_eq, ◌≡◌, ◌≢◌, ◌↔◌, refl, sym, ◌∙◌, ap, arith, eqb_sound, eqb_complete,
  String-discrete,
}
use native.Mathlib.Decide.{ℕ_discrete}
use worktree_merge_consensus.Prelude.Searches.{
  All, any-false, any_of_All, contains-false, not-mem_of_contains,
}
use worktree_merge_consensus.Prelude.Multiplicity.{
  times, perm_of_times, times-perm, length-perm, times_of_Nodup,
}
use worktree_merge_consensus.Text.{is_blank}
use worktree_merge_consensus.State.Defs.{TestEvidence}
use worktree_merge_consensus.State.Evidence.{is_incomplete, blank_or_repeated, malformed, runs_of}

abbrev pub commands_of : List TestEvidence → List String
commands_of = map (λ e. e.command)

-- The frozen commands are some, none blank and no two alike; each entry of the evidence is well
-- formed; and the commands of the evidence are the frozen ones, each run once, in any order.
pub record IsComplete (required : List String) (evidence : List TestEvidence) : Type 0 where
  pub some_required : required ≢ []
  pub distinct : Nodup required
  pub nonblank : All (λ r. is_blank r ≡ false) required
  pub well_formed : All (λ e. malformed e ≡ false) evidence
  pub matching : Perm (commands_of evidence) required

runs_of-times :
    (r : String) (evidence : List TestEvidence)
    → runs_of r evidence ≡ times r (commands_of evidence)
unfolding runs_of times count_of
runs_of-times r [] = refl
runs_of-times r (e ∷ es) = ground (arith, runs_of-times r es)

length-commands_of :
    (evidence : List TestEvidence) → length (commands_of evidence) ≡ length evidence
length-commands_of [] = refl
length-commands_of (e ∷ es) = ap suc (length-commands_of es)

times_of_runs :
    (rs : List String) (evidence : List TestEvidence)
    → All (λ r. (runs_of r evidence != 1) ≡ false) rs
    → All (λ r. times r (commands_of evidence) ≡ 1) rs
times_of_runs [] evidence h = tt
times_of_runs (r ∷ rs) evidence (h, hs) = (
  ground (arith, runs_of-times r evidence, eqb_sound ℕ_discrete (runs_of r evidence) 1),
  times_of_runs rs evidence hs,
)

times-runs_of :
    (rs : List String) (evidence : List TestEvidence)
    → All (λ r. times r (commands_of evidence) ≡ 1) rs
    → All (λ r. (runs_of r evidence != 1) ≡ false) rs
times-runs_of [] evidence h = tt
times-runs_of (r ∷ rs) evidence (h, hs) = (
  ground (
    arith,
    runs_of-times r evidence,
    eqb_complete ℕ_discrete (runs_of r evidence) 1 (runs_of-times r evidence ∙ h),
  ),
  times-runs_of rs evidence hs,
)

times_of_perm :
    (rs xs ys : List String)
    → Perm ys xs
    → All (λ r. times r xs ≡ 1) rs
    → All (λ r. times r ys ≡ 1) rs
times_of_perm [] xs ys p h = tt
times_of_perm (r ∷ rs) xs ys p (h, hs) = (times-perm r p ∙ h, times_of_perm rs xs ys p hs)

-- None of the commands stands among those seen before.
abbrev Fresh : List String → List String → Type 0
Fresh seen cs = All (λ c. contains seen c ≡ false) cs

contains-snoc :
    (seen : List String) (c x : String)
    → contains (seen ++ (c ∷ [])) x ≡ (contains seen x || c == x)
unfolding contains
contains-snoc [] c x = ground arith
contains-snoc (s ∷ seen) c x = ground (arith, contains-snoc seen c x)

Fresh-grow :
    (seen : List String) (c : String) (cs : List String)
    → Fresh seen cs
    → contains cs c ≡ false
    → Fresh (seen ++ (c ∷ [])) cs
unfolding contains
Fresh-grow seen c [] f n = tt
Fresh-grow seen c (x ∷ cs) (f, fs) n = (
  ground (
    arith,
    contains-snoc seen c x,
    eqb_sound String-discrete c x,
    eqb_complete String-discrete x c,
  ),
  Fresh-grow seen c cs fs (ground arith),
)

Fresh-snoc :
    (seen : List String) (c : String) (cs : List String)
    → Fresh (seen ++ (c ∷ [])) cs
    → Fresh seen cs × (contains cs c ≡ false)
unfolding contains
Fresh-snoc seen c [] f = (tt, refl)
Fresh-snoc seen c (x ∷ cs) (f, fs) =
    let (rest, absent) = Fresh-snoc seen c cs fs in
    (
      (ground (arith, contains-snoc seen c x), rest),
      ground (
        arith,
        contains-snoc seen c x,
        eqb_sound String-discrete x c,
        eqb_complete String-discrete c x,
      ),
    )

-- The scan with the commands seen before: none blank, none repeated, none seen.
blank_or_repeated-false :
    (seen cs : List String)
    → blank_or_repeated seen cs ≡ false
    → All (λ c. is_blank c ≡ false) cs × Nodup cs × Fresh seen cs
unfolding blank_or_repeated
blank_or_repeated-false seen [] h = (tt, Nodup-nil, tt)
blank_or_repeated-false seen (c ∷ cs) h =
    let (nonblank, distinct, fresh) =
      blank_or_repeated-false (seen ++ (c ∷ [])) cs (ground arith) in
    let (rest, absent) = Fresh-snoc seen c cs fresh in
    (
      (ground arith, nonblank),
      Nodup-cons.1 (not-mem_of_contains cs c absent, distinct),
      (ground arith, rest),
    )

blank_or_repeated_of :
    (seen cs : List String)
    → All (λ c. is_blank c ≡ false) cs
    → Nodup cs
    → Fresh seen cs
    → blank_or_repeated seen cs ≡ false
unfolding blank_or_repeated
blank_or_repeated_of seen [] b n f = refl
blank_or_repeated_of seen (c ∷ cs) (b, bs) n (f, fs) =
    let (absent, distinct) = Nodup-cons.0 n in
    ground (
      arith,
      blank_or_repeated_of (seen ++ (c ∷ [])) cs bs distinct
          (Fresh-grow seen c cs fs (contains-false cs c absent)),
    )

Fresh-nil : (cs : List String) → Fresh [] cs
unfolding contains
Fresh-nil [] = tt
Fresh-nil (c ∷ cs) = (refl, Fresh-nil cs)

is_complete_parts :
    (required : List String) (evidence : List TestEvidence)
    → is_incomplete required evidence ≡ false
    → (is_nil required ≡ false)
      × (length evidence ≡ length required)
      × (blank_or_repeated [] required ≡ false)
      × (any malformed evidence ≡ false)
      × (any (λ r. runs_of r evidence != 1) required ≡ false)
unfolding is_incomplete
is_complete_parts required evidence h =
    ground (arith, eqb_sound ℕ_discrete (length evidence) (length required))

is_incomplete_of_parts :
    (required : List String) (evidence : List TestEvidence)
    → is_nil required ≡ false
    → length evidence ≡ length required
    → blank_or_repeated [] required ≡ false
    → any malformed evidence ≡ false
    → any (λ r. runs_of r evidence != 1) required ≡ false
    → is_incomplete required evidence ≡ false
unfolding is_incomplete
is_incomplete_of_parts required evidence a b c d e =
    ground (arith, eqb_complete ℕ_discrete (length evidence) (length required))

not_nil : (required : List String) → required ≢ [] → is_nil required ≡ false
not_nil [] n = absurd (n refl)
not_nil (r ∷ rs) n = refl

-- The check of the evidence passes exactly where there are frozen commands, none blank and no two
-- equal, no entry of the evidence is malformed, and the commands that the entries ran are a
-- permutation of the frozen ones.
pub is_incomplete-IsComplete :
    (required : List String) (evidence : List TestEvidence)
    → (is_incomplete required evidence ≡ false) ↔ IsComplete required evidence
is_incomplete-IsComplete required evidence = (
  λ h.
      let (some_required, lengths, scan, entries, runs) = is_complete_parts required evidence h in
      let (nonblank, distinct, fresh) = blank_or_repeated-false [] required scan in
      record {
        some_required = λ e. ground arith;
        distinct = distinct;
        nonblank = nonblank;
        well_formed = any-false malformed evidence entries;
        matching =
            perm_of_times required (commands_of evidence) distinct
              (length-commands_of evidence ∙ lengths)
              (times_of_runs required evidence (any-false _ required runs));
      },
  λ c.
      is_incomplete_of_parts required evidence (not_nil required c.some_required)
        (sym (length-commands_of evidence) ∙ length-perm c.matching)
        (blank_or_repeated_of [] required c.nonblank c.distinct (Fresh-nil required))
        (any_of_All malformed evidence c.well_formed)
        (any_of_All _ required (
          times-runs_of required evidence (
            times_of_perm required required (commands_of evidence) c.matching
              (times_of_Nodup required c.distinct)))),
)
