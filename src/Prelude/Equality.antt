-- ===== src/Prelude/Equality.antt =====
-- `PartialEq` as decidable equality, chosen by instance.
use Prim.Native.Nat.{ℕ}
use Prim.Native.String.{String}
use text.Mathlib.Text.{◌==◌ as str_eq}
use text.Mathlib.TextEquality.{eq_iff}
use mathlib.Core.Path.{◌≡◌, refl}
use mathlib.Core.Logic.{◌↔◌}
use mathlib.Core.Bool.{Bool, true, false, false≢true, decide, decide_iff}
use mathlib.Core.Option.{Option, none, some}
use mathlib.Core.List.{List}
use native.Mathlib.Decide.{ℕ_discrete}

String_discrete_of : (s t : String) (b : Bool) → (b ≡ true) ↔ (s ≡ t) → Dec (s ≡ t)
String_discrete_of s t true h = yes (h.0 refl)
String_discrete_of s t false h = no (λ e. false≢true (h.1 e))

unfoldable pub String-discrete : Discrete String
unfolding String_discrete_of
String-discrete s t = String_discrete_of s t (str_eq s t) (eq_iff s t)

unfoldable pub Option-discrete {ℓ} : {A : Type ℓ} → Discrete A → Discrete (Option A)
Option-discrete d = hlevel d

unfoldable pub List-discrete {ℓ} : {A : Type ℓ} → Discrete A → Discrete (List A)
List-discrete d = hlevel d

pub record Eq {ℓ} (A : Type ℓ) : Type ℓ where
  pub dec_eq : Discrete A

unfoldable pub eqb {ℓ} : {A : Type ℓ} → Discrete A → A → A → Bool
unfolding decide
eqb d a b = decide (d a b)

infix 50 ◌==◌ ◌!=◌
abbrev pub ◌==◌ {ℓ} : {A : Type ℓ} ⦃e : Eq A⦄ → A → A → Bool
◌==◌ ⦃e⦄ a b = eqb e.dec_eq a b

abbrev pub negate : Bool → Bool
negate true = false
negate false = true

abbrev pub ◌!=◌ {ℓ} : {A : Type ℓ} ⦃e : Eq A⦄ → A → A → Bool
a != b = negate (a == b)

pub eqb_sound {ℓ} : {A : Type ℓ} (d : Discrete A) (a b : A) → eqb d a b ≡ true → a ≡ b
unfolding eqb
eqb_sound d a b h = (decide_iff (d a b)).0 h

pub eqb_complete {ℓ} : {A : Type ℓ} (d : Discrete A) (a b : A) → a ≡ b → eqb d a b ≡ true
unfolding eqb
eqb_complete d a b h = (decide_iff (d a b)).1 h

pub eqb_refl {ℓ} : {A : Type ℓ} (d : Discrete A) (a : A) → eqb d a a ≡ true
eqb_refl d a = eqb_complete d a a refl

instance abbrev pub nat_eq : Eq ℕ
nat_eq = record { dec_eq = ℕ_discrete }

instance abbrev pub string_eq : Eq String
string_eq = record { dec_eq = String-discrete }

instance abbrev pub option_eq {ℓ} : {A : Type ℓ} ⦃e : Eq A⦄ → Eq (Option A)
option_eq ⦃e⦄ = record { dec_eq = Option-discrete e.dec_eq }

instance abbrev pub list_eq {ℓ} : {A : Type ℓ} ⦃e : Eq A⦄ → Eq (List A)
list_eq ⦃e⦄ = record { dec_eq = List-discrete e.dec_eq }

same_option : ◌==◌ {A = Option String} (some "a") (some "a") ≡ true
unfolding eqb Option-discrete String-discrete
same_option = refl

other_option : ◌==◌ {A = Option String} (some "a") none ≡ false
unfolding eqb Option-discrete String-discrete
other_option = refl
