-- ===== src/Text.antt =====
-- What the program uses of Rust's `str`: `trim`, `is_empty`, `starts_with` and `ends_with`. The
-- white space is Unicode's `White_Space`.

pub mod Trimmed
pub mod Parts
pub mod Decimal
use Prim.Native.Char.{Char, code}
use worktree_merge_consensus.Prelude.{
  ℕ, Bool, true, false, ◌&&◌, ◌||◌, String, leb, if◌then◌else◌, ◌==◌, nat_eq, string_eq, ◌≡◌, refl,
  eqb,
}
use native.Mathlib.Decide.{ℕ_discrete}

unfoldable pub is_whitespace : ℕ → Bool
is_whitespace c =
    (leb 9 c && leb c 13)
    || c == 32
    || c == 133
    || c == 160
    || c == 5760
    || (leb 8192 c && leb c 8202)
    || c == 8232
    || c == 8233
    || c == 8239
    || c == 8287
    || c == 12288

unfoldable pub is_empty : String → Bool
is_empty String.[] = true
is_empty (String.◌∷◌ c s) = false

unfoldable pub trim_start : String → String
trim_start String.[] = String.[]
trim_start (String.◌∷◌ c s) = if is_whitespace (code c) then trim_start s else String.◌∷◌ c s

-- A character in front of a text that is trimmed at its end.
unfoldable pub put : Char → String → String
put c String.[] = if is_whitespace (code c) then String.[] else String.◌∷◌ c String.[]
put c (String.◌∷◌ d s) = String.◌∷◌ c (String.◌∷◌ d s)

unfoldable pub trim_end : String → String
trim_end String.[] = String.[]
trim_end (String.◌∷◌ c s) = put c (trim_end s)

unfoldable pub trim : String → String
unfolding trim_start trim_end put is_whitespace
trim s = trim_end (trim_start s)

-- `s.trim().is_empty()`.
unfoldable pub is_blank : String → Bool
unfolding trim is_empty
is_blank s = is_empty (trim s)

unfoldable pub starts_with : String → String → Bool
starts_with s String.[] = true
starts_with String.[] (String.◌∷◌ d t) = false
starts_with (String.◌∷◌ c s) (String.◌∷◌ d t) = code c == code d && starts_with s t

unfoldable pub ends_with : String → String → Bool
unfolding starts_with
ends_with String.[] t = is_empty t
ends_with (String.◌∷◌ c s) t = String.◌∷◌ c s == t || ends_with s t

unfoldable pub append : String → String → String
append String.[] t = t
append (String.◌∷◌ c s) t = String.◌∷◌ c (append s t)

trims : trim "  cargo test " ≡ "cargo test"
unfolding trim eqb ℕ_discrete
trims = refl
