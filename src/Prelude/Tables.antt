-- ===== src/Prelude/Tables.antt =====
-- A table is the list of its rows, the newest first: selection, deletion and update by a test.
use mathlib.Core.Path.{◌≡◌, refl}
use Prim.Native.Nat.{◌+◌}
use mathlib.Core.Bool.{Bool, true, false}
use mathlib.Core.Option.{Option, none, some}
use mathlib.Core.List.{List, [], ◌∷◌}
use mathlib.Core.Logic.{inl, inr}
use native.Mathlib.Omega.{arith}
use worktree_merge_consensus.Prelude.Tests.{if◌then◌else◌, Bool-cases}
use worktree_merge_consensus.Prelude.Lists.{any, count_of, is_nil}

module _ {ℓ} {A : Type ℓ} where
  -- `ORDER BY id DESC LIMIT 1`
  unfoldable pub find : (A → Bool) → List A → Option A
  find p [] = none
  find p (x ∷ xs) = if p x then some x else find p xs

  unfoldable pub select : (A → Bool) → List A → List A
  select p [] = []
  select p (x ∷ xs) = let rest = select p xs in if p x then x ∷ rest else rest

  unfoldable pub delete : (A → Bool) → List A → List A
  delete p [] = []
  delete p (x ∷ xs) = let rest = delete p xs in if p x then rest else x ∷ rest

  unfoldable pub update : (A → Bool) → (A → A) → List A → List A
  update p f [] = []
  update p f (x ∷ xs) = (if p x then f x else x) ∷ update p f xs

  pub find-update_self :
      (p : A → Bool) (f : A → A) (y : A) (xs : List A)
      → ((x : A) → p x ≡ true → f x ≡ y)
      → p y ≡ true
      → (x : A) → find p xs ≡ some x
      → find p (update p f xs) ≡ some y
  unfolding find update
  find-update_self p f y [] same kept x h = ground arith
  find-update_self p f y (z ∷ zs) same kept x h = elim (Bool-cases (p z)) [
    | inl here ↦ rw here (rw (same z here) (rw kept refl))
    | inr there ↦ rw there (rw there (find-update_self p f y zs same kept x (ground arith)))
  ]

  pub find-update_other :
      (p q : A → Bool) (f : A → A) (xs : List A)
      → ((x : A) → p x ≡ true → q x ≡ false)
      → ((x : A) → p x ≡ true → q (f x) ≡ false)
      → find q (update p f xs) ≡ find q xs
  unfolding find update
  find-update_other p q f [] before after = refl
  find-update_other p q f (z ∷ zs) before after = elim (Bool-cases (p z)) [
    | inl here ↦
        rw here (rw (after z here) (rw (before z here) (find-update_other p q f zs before after)))
    | inr there ↦ ground (arith, find-update_other p q f zs before after)
  ]

  pub any-delete : (p : A → Bool) (xs : List A) → any p (delete p xs) ≡ false
  unfolding any delete
  any-delete p [] = refl
  any-delete p (x ∷ xs) = ground (arith, any-delete p xs)

  pub count_of-update :
      (p q : A → Bool) (f : A → A) (xs : List A)
      → ((x : A) → p x ≡ true → q x ≡ true)
      → ((x : A) → p x ≡ true → q (f x) ≡ false)
      → count_of q (update p f xs) + count_of p xs ≡ count_of q xs
  unfolding count_of update
  count_of-update p q f [] before after = refl
  count_of-update p q f (x ∷ xs) before after = elim (Bool-cases (p x)) [
    | inl here ↦ rw here (
        rw (after x here)
          (rw (before x here) (omega (arith, count_of-update p q f xs before after))))
    | inr there ↦ rw there (ground (arith, count_of-update p q f xs before after))
  ]

  pub any-update :
      (p q : A → Bool) (f : A → A) (xs : List A)
      → ((x : A) → q (f x) ≡ q x)
      → any q (update p f xs) ≡ any q xs
  unfolding any update
  any-update p q f [] same = refl
  any-update p q f (x ∷ xs) same = elim (Bool-cases (p x)) [
    | inl here ↦ rw here (rw (same x) (rw (any-update p q f xs same) refl))
    | inr there ↦ rw there (rw (any-update p q f xs same) refl)
  ]

  pub select-any :
      (p q : A → Bool) (xs : List A)
      → any q xs ≡ true
      → ((x : A) → q x ≡ true → p x ≡ true)
      → is_nil (select p xs) ≡ false
  unfolding any select
  select-any p q [] h within = ground arith
  select-any p q (x ∷ xs) h within = elim (Bool-cases (q x)) [
    | inl here ↦ rw (within x here) refl
    | inr there ↦ ground (arith, select-any p q xs (ground arith) within)
  ]
