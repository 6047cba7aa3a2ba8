-- ===== src/Text/Parts.antt =====
-- More of Rust's `str`: `contains`, `strip_prefix`, `strip_suffix`, and the tests of its characters.
use Prim.Native.Char.{Char, code}
use worktree_merge_consensus.Prelude.{
  ℕ, Bool, true, false, ◌&&◌, ◌||◌, String, Option, none, some, if◌then◌else◌, ◌==◌, nat_eq,
  string_eq,
}
use worktree_merge_consensus.Text.{starts_with}

unfoldable pub includes : String → String → Bool
unfolding starts_with
includes String.[] t = starts_with String.[] t
includes (String.◌∷◌ c s) t = starts_with (String.◌∷◌ c s) t || includes s t

unfoldable pub any_char : (ℕ → Bool) → String → Bool
any_char p String.[] = false
any_char p (String.◌∷◌ c s) = p (code c) || any_char p s

unfoldable pub all_chars : (ℕ → Bool) → String → Bool
all_chars p String.[] = true
all_chars p (String.◌∷◌ c s) = p (code c) && all_chars p s

unfoldable pub strip_prefix : String → String → Option String
strip_prefix s String.[] = some s
strip_prefix String.[] (String.◌∷◌ d t) = none
strip_prefix (String.◌∷◌ c s) (String.◌∷◌ d t) =
    let rest = strip_prefix s t in if code c == code d then rest else none

abbrev push : Char → Option String → Option String
push c none = none
push c (some s) = some (String.◌∷◌ c s)

unfoldable pub strip_suffix : String → String → Option String
strip_suffix String.[] t = if String.[] == t then some String.[] else none
strip_suffix (String.◌∷◌ c s) t =
    let rest = strip_suffix s t in if String.◌∷◌ c s == t then some String.[] else push c rest
