-- ===== src/Text/Trimmed.antt =====
-- What `str::trim` leaves: a text that is not blank stays so.
use Prim.Native.Char.{Char, code}
use worktree_merge_consensus.Prelude.{
  ◌≡◌, ◌⊎◌, inl, inr, Bool-cases, true, false, refl, sym, ap, ◌∙◌, arith, String,
}
use worktree_merge_consensus.Text.{
  is_whitespace, is_empty, trim_start, put, trim_end, trim, is_blank,
}

-- Nothing, or a text whose first character is no white space.
abbrev Begins : String → Type 0
Begins s =
    (s ≡ String.[])
    ⊎ ((d : Char) × (r : String) × (is_whitespace (code d) ≡ false) × (s ≡ String.◌∷◌ d r))

trim_start-Begins : (s : String) → Begins (trim_start s)
unfolding trim_start
trim_start-Begins String.[] = inl refl
trim_start-Begins (String.◌∷◌ c s) = elim (Bool-cases (is_whitespace (code c))) [
  | inl space ↦ rw space (trim_start-Begins s)
  | inr other ↦ rw other (inr (c, s, other, refl))
]

put-Begins :
    (c : Char) (s : String)
    → is_whitespace (code c) ≡ false
    → (r : String) × (put c s ≡ String.◌∷◌ c r)
unfolding put
put-Begins c String.[] h = (String.[], rw h refl)
put-Begins c (String.◌∷◌ d s) h = (String.◌∷◌ d s, refl)

trim-Begins : (s : String) → Begins (trim s)
unfolding trim trim_end
trim-Begins s = elim (trim_start-Begins s) [
  | inl empty ↦ inl (rw empty refl)
  | inr (c, s', other, e) ↦
      let (r, p) = put-Begins c (trim_end s') other in inr (c, r, other, rw e p)
]

is_blank-solid :
    (c : Char) (s : String) → is_whitespace (code c) ≡ false → is_blank (String.◌∷◌ c s) ≡ false
unfolding is_blank trim trim_start trim_end is_empty
is_blank-solid c s h = let (r, p) = put-Begins c (trim_end s) h in rw h (rw p refl)

true_is_not_false : ¬ (true ≡ false)
true_is_not_false p = ground arith

pub is_blank-trim : (s : String) → is_blank s ≡ false → is_blank (trim s) ≡ false
unfolding is_blank is_empty
is_blank-trim s h = elim (trim-Begins s) [
  | inl empty ↦ absurd (true_is_not_false (sym (ap is_empty empty) ∙ h))
  | inr (c, r, other, e) ↦ rw e (is_blank-solid c r other)
]
