-- ===== src/Policy/Paths.antt =====
-- `Path::components` on Unix, for the path that a text spells.
use Prim.Native.Char.{Char, code}
use worktree_merge_consensus.Prelude.{
  String, List, [], ◌∷◌, if◌then◌else◌, ◌==◌, nat_eq, string_eq, ◌≡◌, refl, eqb, String-discrete,
}
use native.Mathlib.Decide.{ℕ_discrete}
use worktree_merge_consensus.Text.{starts_with}
use worktree_merge_consensus.State.Defs.{PathBuf}
use worktree_merge_consensus.State.Defs.Component.{root_dir, cur_dir, parent_dir, normal}

abbrev onto_first : Char → List String → List String
onto_first c [] = String.◌∷◌ c String.[] ∷ []
onto_first c (s ∷ ss) = String.◌∷◌ c s ∷ ss

-- `split('/')`.
unfoldable pub segments : String → List String
segments String.[] = String.[] ∷ []
segments (String.◌∷◌ c s) =
    let rest = segments s in if code c == 47 then String.[] ∷ rest else onto_first c rest

-- Empty segments and `.` are no components.
unfoldable pub components_of : List String → PathBuf
components_of [] = []
components_of (s ∷ ss) =
    let rest = components_of ss in
    if s == ""
    then rest
    else if s == "."
    then rest
    else if s == ".."
    then parent_dir ∷ rest
    else normal s ∷ rest

-- A `.` in front of a relative path is one.
unfoldable pub relative_components : List String → PathBuf
unfolding components_of
relative_components [] = []
relative_components (s ∷ ss) =
    if s == "." then cur_dir ∷ components_of ss else components_of (s ∷ ss)

unfoldable pub components : String → PathBuf
unfolding segments components_of relative_components starts_with
components s =
    if starts_with s "/"
    then root_dir ∷ components_of (segments s)
    else relative_components (segments s)

absolute : components "/a//./../b/" ≡ root_dir ∷ normal "a" ∷ parent_dir ∷ normal "b" ∷ []
unfolding components eqb ℕ_discrete String-discrete
absolute = refl

relative : components "./src" ≡ cur_dir ∷ normal "src" ∷ []
unfolding components eqb ℕ_discrete String-discrete
relative = refl
