-- ===== src/Examples/Shells.antt =====
-- The command policy and the store at the example's run: what they take from outside, as functions.
use Prim.Native.Char.{Char, code}
use worktree_merge_consensus.Prelude.{
  true, ◌&&◌, ◌||◌, leb, String, some, List, [], ◌∷◌, if◌then◌else◌, ◌==◌, nat_eq,
}
use worktree_merge_consensus.Text.{append}
use worktree_merge_consensus.Json.{Value, string, object, end, field}
use worktree_merge_consensus.State.Defs.{PathBuf, RunState, root_dir, cur_dir, parent_dir, normal}
use worktree_merge_consensus.State.Operations.{Operation, delivering}
use worktree_merge_consensus.Policy.{Shell}
use worktree_merge_consensus.Store.{Storage}
use worktree_merge_consensus.Examples.Run.{planned, approved_plan}

-- Words between spaces.
abbrev onto : Char → List String → List String
onto c [] = String.◌∷◌ c String.[] ∷ []
onto c (s ∷ ss) = String.◌∷◌ c s ∷ ss

abbrev split_spaces : String → List String
split_spaces String.[] = String.[] ∷ []
split_spaces (String.◌∷◌ c s) =
    let rest = split_spaces s in if code c == 32 then String.[] ∷ rest else onto c rest

abbrev pub path_text : PathBuf → String
path_text [] = ""
path_text (root_dir ∷ p) = append "/" (path_text p)
path_text (cur_dir ∷ p) = append "./" (path_text p)
path_text (parent_dir ∷ p) = append "../" (path_text p)
path_text (normal name ∷ p) = append name (path_text p)

abbrev pub example_shell : Shell
example_shell = record {
  split = λ s. some (split_spaces s);
  is_version = λ s. true;
  is_alphanumeric = λ c. (leb 97 c && leb c 122) || (leb 48 c && leb c 57);
  to_str = λ p. some (path_text p);
}

-- A text that is the state itself.
abbrev pub example_storage : Storage
example_storage = record {
  Text = RunState;
  Document = RunState;
  to_string = λ s. s;
  from_str = λ s. some s;
  version_of = λ s. some s.schema_version;
  from_value = λ s. some s;
  to_string_lossy = path_text;
  to_str = λ p. some (path_text p);
}

abbrev pub integrating : List Operation
integrating = delivering (approved_plan 1) ∷ planned

-- The test that the run has frozen, in the workspace of the verification.
abbrev pub testing : Value
testing = object (
    field "command" (string "cargo test")
      (field "cwd" (string "/3333333333333333333333333333333333333333") end))

abbrev pub asking : String → Value
asking command = object (field "command" (string command) (field "cwd" (string "/primary") end))
