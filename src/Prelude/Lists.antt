-- ===== src/Prelude/Lists.antt =====
-- Lists measured by native numbers, and the Boolean searches of `Iterator`.
use Prim.Native.Nat.{ℕ, suc}
use mathlib.Core.Bool.{Bool, true, false, ◌||◌}
use mathlib.Core.List.{List, [], ◌∷◌}
use worktree_merge_consensus.Prelude.Tests.{if◌then◌else◌}
use worktree_merge_consensus.Prelude.Equality.{Eq, ◌==◌}

module _ {ℓ} {A : Type ℓ} where
  abbrev pub length : List A → ℕ
  length [] = 0
  length (x ∷ xs) = suc (length xs)

  -- `is_empty` of a slice.
  abbrev pub is_nil : List A → Bool
  is_nil [] = true
  is_nil (x ∷ xs) = false

  unfoldable pub any : (A → Bool) → List A → Bool
  any p [] = false
  any p (x ∷ xs) = p x || any p xs

  -- The entries that pass a test, counted: `iter().filter(p).count()`.
  unfoldable pub count_of : (A → Bool) → List A → ℕ
  count_of p [] = 0
  count_of p (x ∷ xs) = if p x then suc (count_of p xs) else count_of p xs

module _ {ℓ} {A : Type ℓ} ⦃e : Eq A⦄ where
  unfoldable pub contains : List A → A → Bool
  contains [] a = false
  contains (x ∷ xs) a = x == a || contains xs a
