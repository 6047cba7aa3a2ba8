-- ===== src/State/Evidence.antt =====
-- crates/core/src/state.rs: the frozen test commands and the evidence for them.
pub mod Complete
use worktree_merge_consensus.Prelude.{
  ℕ, Bool, false, not, ◌||◌, String, Option, none, some, List, [], ◌∷◌, ◌++◌, any, is_nil, length,
  count_of, contains, if◌then◌else◌, ◌==◌, ◌!=◌, nat_eq, string_eq,
}
use worktree_merge_consensus.Prelude.Results.{ok, ◌>>=◌, ◌>>◌, guard, ok_or}
use worktree_merge_consensus.Text.{is_blank, is_empty, trim}
use worktree_merge_consensus.Json.{Value, get, as_array, as_str}
use worktree_merge_consensus.State.Defs.{
  TestEvidence, RunState, Codec, is_absolute, pos, integer_eq,
}
use worktree_merge_consensus.State.Exec.{Check, test_failure, invalid_response}

-- `map(f).collect::<Result<Vec<_>, _>>()`
unfoldable pub collect : {A B : Type 0} → (A → Check B) → List A → Check (List B)
collect f [] = ok []
collect f (a ∷ as') = do b ← f a; bs ← collect f as'; ok (b ∷ bs)

abbrev pub and_then : {A B : Type 0} → Option A → (A → Option B) → Option B
and_then none f = none
and_then (some a) f = f a

-- The nonempty array under a field, or the error of both readers of arrays.
unfoldable pub nonempty_array : Value → String → Check (List Value)
nonempty_array value name = do
  values ← ok_or (and_then (get value name) as_array) invalid_response
  guard invalid_response (not (is_nil values))
  ok values

-- An entry of `string_array_field`: a text, trimmed, that is not empty.
unfoldable pub command_entry : Value → Check String
command_entry value = do
  text ← ok_or (as_str value) invalid_response
  guard invalid_response (not (is_empty (trim text)))
  ok (trim text)

unfoldable pub string_array_field : Value → String → Check (List String)
unfolding nonempty_array command_entry collect
string_array_field value name = do values ← nonempty_array value name; collect command_entry values

unfoldable pub parse_test_evidence : Codec → Value → Check (List TestEvidence)
unfolding nonempty_array collect
parse_test_evidence c payload = do
  values ← nonempty_array payload "test_evidence"
  collect (λ v. ok_or (c.decode_evidence v) invalid_response) values

-- `freeze_test_commands`: the commands not there yet, added at the end.
unfoldable pub freeze_commands : List String → List String → List String
freeze_commands required [] = required
freeze_commands required (c ∷ cs) =
    freeze_commands (if contains required c then required else required ++ (c ∷ [])) cs

unfoldable pub freeze_test_commands : List String → RunState → RunState
freeze_test_commands commands s = record s {
  required_test_commands = freeze_commands s.required_test_commands commands;
}

-- A command that is blank or stands among those before it, `seen`.
unfoldable pub blank_or_repeated : List String → List String → Bool
blank_or_repeated seen [] = false
blank_or_repeated seen (c ∷ cs) =
    (is_blank c || contains seen c) || blank_or_repeated (seen ++ (c ∷ [])) cs

unfoldable pub malformed : TestEvidence → Bool
malformed e =
    is_blank e.command || is_blank e.turn_id || is_blank e.item_id || not (is_absolute e.cwd)

-- `evidence.iter().filter(|entry| entry.command == *required).count()`
unfoldable pub runs_of : String → List TestEvidence → ℕ
runs_of command evidence = count_of (λ e. e.command == command) evidence

unfoldable pub is_incomplete : List String → List TestEvidence → Bool
unfolding blank_or_repeated malformed
is_incomplete required evidence =
    is_nil required
    || length evidence != length required
    || blank_or_repeated [] required
    || any malformed evidence
    || any (λ r. runs_of r evidence != 1) required

unfoldable pub validate_complete_test_evidence : RunState → List TestEvidence → Check (Unit {0})
validate_complete_test_evidence s evidence =
    guard test_failure (not (is_incomplete s.required_test_commands evidence))

-- A command that exited with a code other than 0.
unfoldable pub failed : TestEvidence → Bool
failed e = e.exit_code != pos 0

unfoldable pub validate_test_evidence : RunState → Check (Unit {0})
validate_test_evidence s = do
  validate_complete_test_evidence s s.test_evidence
  guard test_failure (not (any failed s.test_evidence))
