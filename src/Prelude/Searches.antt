-- ===== src/Prelude/Searches.antt =====
-- The Boolean searches of a list against the library's membership, and the predicate `All`.

use mathlib.Core.Path.{◌≡◌, refl, sym, subst}
use mathlib.Core.Bool.{Bool, true, false, Bool-set}
use mathlib.Core.Logic.{◌≢◌, inl, inr}
use mathlib.Core.Logic.Or
use mathlib.Core.List.{List, [], ◌∷◌, Mem, mem-cons, not-mem-nil}
use native.Mathlib.Omega.{arith}
use worktree_merge_consensus.Prelude.Tests.{Bool-cases}
use worktree_merge_consensus.Prelude.Equality.{Eq, ◌==◌, eqb_sound, eqb_complete}
use worktree_merge_consensus.Prelude.Lists.{any, contains}

abbrev pub All {ℓ κ} : {A : Type ℓ} → (A → Type κ) → List A → Type κ
All P [] = Unit
All P (x ∷ xs) = P x × All P xs

module _ {ℓ} {A : Type ℓ} where
  pub any-false : (p : A → Bool) (xs : List A) → any p xs ≡ false → All (λ x. p x ≡ false) xs
  unfolding any
  any-false p [] h = tt
  any-false p (x ∷ xs) h = (ground arith, any-false p xs (ground arith))

  pub any_of_All : (p : A → Bool) (xs : List A) → All (λ x. p x ≡ false) xs → any p xs ≡ false
  unfolding any
  any_of_All p [] h = refl
  any_of_All p (x ∷ xs) (h, hs) = ground (arith, any_of_All p xs hs)

Bool_prop : (a b : Bool) → IsProp (a ≡ b)
Bool_prop a b = Bool-set a b

module _ {ℓ} {A : Type ℓ} where
  pub not-mem_head : {a x : A} {xs : List A} → ¬ Mem a (x ∷ xs) → a ≢ x
  not-mem_head n h = n (mem-cons.1 (Or.inl h))

  pub not-mem_tail : {a x : A} {xs : List A} → ¬ Mem a (x ∷ xs) → ¬ Mem a xs
  not-mem_tail n m = n (mem-cons.1 (Or.inr m))

module _ {ℓ} {A : Type ℓ} ⦃e : Eq A⦄ where
  contains_cons : (xs : List A) (x a : A) → contains xs a ≡ true → contains (x ∷ xs) a ≡ true
  unfolding contains
  contains_cons xs x a h = ground arith

  pub contains-true : (xs : List A) (a : A) → Mem a xs → contains xs a ≡ true
  contains-true [] a m = absurd (not-mem-nil m)
  contains-true (x ∷ xs) a m =
      Or.elim (Bool_prop _ _) (mem-cons.0 m)
        (λ p. unfold contains in ground (arith, eqb_complete e.dec_eq x a (sym p)))
        (λ m'. contains_cons xs x a (contains-true xs a m'))

  pub mem_of_contains : (xs : List A) (a : A) → contains xs a ≡ true → Mem a xs
  unfolding contains
  mem_of_contains [] a h = cc
  mem_of_contains (x ∷ xs) a h = elim (Bool-cases (x == a)) [
    | inl p ↦ mem-cons.1 (Or.inl (sym (eqb_sound e.dec_eq x a p)))
    | inr p ↦ mem-cons.1 (Or.inr (mem_of_contains xs a (ground arith)))
  ]

  pub contains-false : (xs : List A) (a : A) → ¬ Mem a xs → contains xs a ≡ false
  contains-false xs a n = elim (Bool-cases (contains xs a)) [
    | inl h ↦ absurd (n (mem_of_contains xs a h))
    | inr h ↦ h
  ]

  pub not-mem_of_contains : (xs : List A) (a : A) → contains xs a ≡ false → ¬ Mem a xs
  not-mem_of_contains xs a h m = cc (contains-true xs a m)

module _ {ℓ} {A : Type ℓ} where
  pub any-true : (p : A → Bool) (xs : List A) → any p xs ≡ true → (x : A) × Mem x xs × (p x ≡ true)
  unfolding any
  any-true p [] h = ground arith
  any-true p (x ∷ xs) h = elim (Bool-cases (p x)) [
    | inl here ↦ (x, mem-cons.1 (Or.inl refl), here)
    | inr there ↦
        let (y, m, holds) = any-true p xs (ground arith) in (y, mem-cons.1 (Or.inr m), holds)
  ]

  pub contains-All {κ} :
      ⦃e : Eq A⦄ → (P : A → Type κ) (xs : List A) (a : A) → All P xs → contains xs a ≡ true → P a
  unfolding contains
  contains-All P [] a all h = ground arith
  contains-All ⦃e⦄ P (x ∷ xs) a (p, ps) h = elim (Bool-cases (x == a)) [
    | inl q ↦ subst P (eqb_sound e.dec_eq x a q) p
    | inr q ↦ contains-All P xs a ps (ground arith)
  ]
