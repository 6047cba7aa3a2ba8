-- ===== src/Prelude/Results.antt =====
-- `Result<T, E>`, with `?` as bind.
use mathlib.Core.Path.{◌≡◌, refl}
use mathlib.Core.Bool.{Bool, true, false}
use mathlib.Core.Option.{Option, none, some}
use mathlib.Core.Logic.{◌⊎◌, inl, inr}

pub data Result {ℓ} (E : Type ℓ) (A : Type ℓ) : Type ℓ where
  ok : A → Result E A
  err : E → Result E A

infixl 5 ◌>>=◌ ◌>>◌
abbrev pub ◌>>=◌ {ℓ} : {E A B : Type ℓ} → Result E A → (A → Result E B) → Result E B
ok a >>= f = f a
err e >>= f = err e

abbrev pub ◌>>◌ {ℓ} : {E A B : Type ℓ} → Result E A → Result E B → Result E B
m >> k = m >>= λ _. k

-- `if !b { return Err(e) }`
abbrev pub guard : {E : Type 0} → E → Bool → Result E (Unit {0})
guard e true = ok tt
guard e false = err e

-- `ok_or`
abbrev pub ok_or {ℓ} : {E A : Type ℓ} → Option A → E → Result E A
ok_or none e = err e
ok_or (some a) e = ok a

abbrev pub is_ok {ℓ} : {E A : Type ℓ} → Result E A → Bool
is_ok (ok a) = true
is_ok (err e) = false

pub Result-cases :
    {E A : Type 0} (r : Result E A) → ((a : A) × (r ≡ ok a)) ⊎ ((e : E) × (r ≡ err e))
Result-cases (ok a) = inl (a, refl)
Result-cases (err e) = inr (e, refl)
