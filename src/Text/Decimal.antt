-- ===== src/Text/Decimal.antt =====
-- A number as `format!` writes it.
use Prim.Native.Char.{Char}
use Prim.Native.Nat.{◌/◌}
use worktree_merge_consensus.Prelude.{
  ℕ, suc, zero, ◌%◌, String, ltb, if◌then◌else◌, ◌==◌, nat_eq, ◌≡◌, refl, eqb,
}
use native.Mathlib.Decide.{ℕ_discrete}

abbrev digit : ℕ → Char
digit n =
    if n == 0
    then "0"
    else if n == 1
    then "1"
    else if n == 2
    then "2"
    else if n == 3
    then "3"
    else if n == 4
    then "4"
    else if n == 5
    then "5"
    else if n == 6
    then "6"
    else if n == 7
    then "7"
    else if n == 8
    then "8"
    else "9"

-- The digits in front of a text; a number has no more digits than itself and one.
unfoldable pub digits : ℕ → ℕ → String → String
digits zero n rest = rest
digits (suc fuel) n rest =
    let longer = digits fuel (n / 10) (String.◌∷◌ (digit (n % 10)) rest) in
    if ltb n 10 then String.◌∷◌ (digit n) rest else longer

unfoldable pub decimal : ℕ → String
unfolding digits
decimal n = digits (suc n) n String.[]

thousand : decimal 1024 ≡ "1024"
unfolding decimal eqb ℕ_discrete
thousand = refl
