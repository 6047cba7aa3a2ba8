-- ===== src/Prelude/Multiplicity.antt =====
-- How often an element stands in a list, and what that says of permutations.
use Prim.Native.Nat.{ℕ, suc, ◌<◌}
use native.Mathlib.Nat.{ℕ_set}
use mathlib.Core.Path.{◌≡◌, refl, sym, ◌∙◌}
use mathlib.Core.Logic.{◌≢◌, inl, inr, ∥∥₁_elim}
use mathlib.Core.List.{List, [], ◌∷◌, Mem, Perm, Permᴰ, Nodup, Nodup-cons}
use mathlib.Core.List.Perm
use native.Mathlib.Omega.{arith}
use worktree_merge_consensus.Prelude.Tests.{if◌then◌else◌, Bool-cases}
use worktree_merge_consensus.Prelude.Equality.{Eq, ◌==◌, eqb_sound, eqb_refl}
use worktree_merge_consensus.Prelude.Lists.{length, count_of}
use worktree_merge_consensus.Prelude.Searches.{All, not-mem_head, not-mem_tail}

module _ {ℓ} {A : Type ℓ} ⦃e : Eq A⦄ where
  unfoldable pub times : A → List A → ℕ
  times a xs = count_of (λ x. x == a) xs

  remove : A → List A → List A
  remove a [] = []
  remove a (x ∷ xs) = if x == a then xs else x ∷ remove a xs

  remove-perm : (a : A) (xs : List A) → 0 < times a xs → Perm xs (a ∷ remove a xs)
  unfolding times remove count_of
  remove-perm a [] h = absurd (omega arith)
  remove-perm a (x ∷ xs) h = elim (Bool-cases (x == a)) [
    | inl p ↦ rw p (Perm.cons' (eqb_sound e.dec_eq x a p) Perm.rfl)
    | inr p ↦
        rw p
          (Perm.trans (Perm.cons x (remove-perm a xs (ground arith))) (Perm.swap a x (remove a xs)))
  ]

  times-remove_ne : (a b : A) (xs : List A) → b ≢ a → times b (remove a xs) ≡ times b xs
  unfolding times remove count_of
  times-remove_ne a b [] n = refl
  times-remove_ne a b (x ∷ xs) n =
      ground (arith, eqb_sound e.dec_eq x a, eqb_sound e.dec_eq x b, times-remove_ne a b xs n)

  length-remove : (a : A) (xs : List A) → 0 < times a xs → length xs ≡ suc (length (remove a xs))
  unfolding times remove count_of
  length-remove a [] h = absurd (omega arith)
  length-remove a (x ∷ xs) h = ground (arith, length-remove a xs)

  times_absent : (a : A) (xs : List A) → ¬ Mem a xs → times a xs ≡ 0
  unfolding times count_of
  times_absent a [] n = refl
  times_absent a (x ∷ xs) n =
      let differs = not-mem_head n in
      ground (arith, eqb_sound e.dec_eq x a, times_absent a xs (not-mem_tail n))

  rest_once :
      (a : A) (xs rs : List A)
      → ¬ Mem a rs
      → All (λ r. times r xs ≡ 1) rs
      → All (λ r. times r (remove a xs) ≡ 1) rs
  rest_once a xs [] n h = tt
  rest_once a xs (r ∷ rs) n (h, hs) = (
    times-remove_ne a r xs (λ q. not-mem_head n (sym q)) ∙ h,
    rest_once a xs rs (not-mem_tail n) hs,
  )

  nil_of_length : (xs : List A) → length xs ≡ 0 → xs ≡ []
  nil_of_length [] h = refl
  nil_of_length (x ∷ xs) h = absurd (omega arith)

  -- As long as a list of distinct elements, with each of them once: a permutation of it.
  pub perm_of_times :
      (rs xs : List A)
      → Nodup rs
      → length xs ≡ length rs
      → All (λ r. times r xs ≡ 1) rs
      → Perm xs rs
  perm_of_times [] xs n l h = rw (nil_of_length xs l) Perm.rfl
  perm_of_times (r ∷ rs) xs n l (h, hs) =
      let (absent, distinct) = Nodup-cons.0 n in
      let once : 0 < times r xs = omega arith in
      Perm.trans (remove-perm r xs once) (
        Perm.cons r (
          perm_of_times rs (remove r xs) distinct (omega (arith, length-remove r xs once))
            (rest_once r xs rs absent hs)))

  times-Permᴰ : (a : A) {xs ys : List A} → Permᴰ xs ys → times a xs ≡ times a ys
  unfolding times count_of
  times-Permᴰ a Permᴰ.nil = refl
  times-Permᴰ a (Permᴰ.cons p h) = ground (arith, times-Permᴰ a h)
  times-Permᴰ a (Permᴰ.swap p q) = ground arith
  times-Permᴰ a (Permᴰ.trans h k) = times-Permᴰ a h ∙ times-Permᴰ a k

  pub times-perm : (a : A) {xs ys : List A} → Perm xs ys → times a xs ≡ times a ys
  times-perm a h = ∥∥₁_elim h (ℕ_set _ _) (times-Permᴰ a)

  length-Permᴰ : {xs ys : List A} → Permᴰ xs ys → length xs ≡ length ys
  length-Permᴰ Permᴰ.nil = refl
  length-Permᴰ (Permᴰ.cons p h) = omega (arith, length-Permᴰ h)
  length-Permᴰ (Permᴰ.swap p q) = refl
  length-Permᴰ (Permᴰ.trans h k) = length-Permᴰ h ∙ length-Permᴰ k

  pub length-perm : {xs ys : List A} → Perm xs ys → length xs ≡ length ys
  length-perm h = ∥∥₁_elim h (ℕ_set _ _) length-Permᴰ

  shift_once :
      (x : A) (xs rs : List A)
      → ¬ Mem x rs
      → All (λ r. times r xs ≡ 1) rs
      → All (λ r. times r (x ∷ xs) ≡ 1) rs
  unfolding times count_of
  shift_once x xs [] n h = tt
  shift_once x xs (r ∷ rs) n (h, hs) =
      let differs = not-mem_head n in
      (ground (arith, eqb_sound e.dec_eq x r), shift_once x xs rs (not-mem_tail n) hs)

  -- In a list of distinct elements each stands once.
  pub times_of_Nodup : (rs : List A) → Nodup rs → All (λ r. times r rs ≡ 1) rs
  unfolding times count_of
  times_of_Nodup [] n = tt
  times_of_Nodup (r ∷ rs) n =
      let (absent, distinct) = Nodup-cons.0 n in
      (
        ground (arith, eqb_refl e.dec_eq r, times_absent r rs absent),
        shift_once r rs rs absent (times_of_Nodup rs distinct),
      )
