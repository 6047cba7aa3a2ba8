-- ===== src/Participant.antt =====
-- crates/core/src/participant.rs: the marker by which a task says what its turn came to.
pub mod Signals
pub mod Rendered
use Prim.Native.Char.{Char, code}
use Prim.Native.String.{len}
use worktree_merge_consensus.Prelude.{
  ℕ, ◌+◌, Bool, true, false, not, ◌&&◌, ◌||◌, String, Option, none, some, List, any, leb, ltb,
  if◌then◌else◌, contains, Eq, ◌==◌, ◌!=◌, nat_eq, string_eq,
}
use worktree_merge_consensus.Prelude.Results.{Result, ok, err, ◌>>=◌, ◌>>◌, guard, ok_or}
use worktree_merge_consensus.Text.{trim, is_empty, starts_with}
unfoldable pub use worktree_merge_consensus.Text.{append}

abbrev marker_open : String
marker_open = "<consensus-result>"

abbrev marker_close : String
marker_close = "</consensus-result>"

pub data ParticipantSignal : Type 0 where
  contract_ready plan_ready approved changes_required : ParticipantSignal
  integration_ready verification_ready blocked : ParticipantSignal

unfoldable pub ParticipantSignal-discrete : Discrete ParticipantSignal
ParticipantSignal-discrete = hlevel

instance abbrev pub signal_eq : Eq ParticipantSignal
signal_eq = record { dec_eq = ParticipantSignal-discrete }

unfoldable pub signal_name : ParticipantSignal → String
signal_name contract_ready = "CONTRACT_READY"
signal_name plan_ready = "PLAN_READY"
signal_name approved = "APPROVED"
signal_name changes_required = "CHANGES_REQUIRED"
signal_name integration_ready = "INTEGRATION_READY"
signal_name verification_ready = "VERIFICATION_READY"
signal_name blocked = "BLOCKED"

unfoldable pub parse_signal : String → Option ParticipantSignal
parse_signal value =
    if value == "CONTRACT_READY"
    then some contract_ready
    else if value == "PLAN_READY"
    then some plan_ready
    else if value == "APPROVED"
    then some approved
    else if value == "CHANGES_REQUIRED"
    then some changes_required
    else if value == "INTEGRATION_READY"
    then some integration_ready
    else if value == "VERIFICATION_READY"
    then some verification_ready
    else if value == "BLOCKED"
    then some blocked
    else none

pub record ParticipantResponse : Type 0 where
  pub signal : ParticipantSignal
  pub blocked_reason : Option String
  pub body : String

-- The errors, without their texts.
pub data ParticipantError : Type 0 where
  marker_count marker_order blocked_reason_form reason_not_allowed : ParticipantError
  unknown_result result_not_allowed : ParticipantError

-- `match_indices(marker).count()`: a marker begins with `<` and has no other, so that no two of its
-- places overlap.
unfoldable pub occurrences : String → String → ℕ
occurrences marker String.[] = 0
occurrences marker (String.◌∷◌ c s) =
    let rest = occurrences marker s in
    if starts_with (String.◌∷◌ c s) marker then rest + 1 else rest

-- What stands behind a prefix of that length.
unfoldable pub skip : String → String → String
skip String.[] s = s
skip (String.◌∷◌ d t) String.[] = String.[]
skip (String.◌∷◌ d t) (String.◌∷◌ c s) = skip t s

abbrev in_front : Char → Option (String × String) → Option (String × String)
in_front c none = none
in_front c (some (before, after)) = some (String.◌∷◌ c before, after)

-- The texts before and after the first place of a marker; also `split_once`.
unfoldable pub split_around : String → String → Option (String × String)
unfolding skip
split_around marker String.[] = none
split_around marker (String.◌∷◌ c s) =
    let rest = split_around marker s in
    if starts_with (String.◌∷◌ c s) marker
    then some (String.[], skip marker (String.◌∷◌ c s))
    else in_front c rest

is_reason_code : ℕ → Bool
is_reason_code c = (leb 65 c && leb c 90) || (leb 48 c && leb c 57) || c == 95

all_reason_codes : String → Bool
unfolding is_reason_code
all_reason_codes String.[] = true
all_reason_codes (String.◌∷◌ c s) = is_reason_code (code c) && all_reason_codes s

-- The length is in bytes; a byte of a character beyond ASCII is none of these, so that the
-- characters serve for the bytes.
unfoldable pub is_reason : String → Bool
unfolding all_reason_codes
is_reason reason = not (is_empty reason || ltb 64 (len reason) || not (all_reason_codes reason))

-- The signal's name and the reason, from the text between the markers.
unfoldable pub read_marker : String → Result ParticipantError (String × Option String)
read_marker value = elim (split_around ":" value) [
  | none ↦ ok (value, none)
  | some (signal, reason) ↦ elim (trim signal == "BLOCKED") [
    | true ↦
        guard ParticipantError.blocked_reason_form (is_reason (trim reason))
        >> ok (trim signal, some (trim reason))
    | false ↦ err ParticipantError.reason_not_allowed
  ]
]

unfoldable pub join_body : String → String → String
join_body before after =
    if is_empty after
    then before
    else if is_empty before
    then after
    else append before (append "\n\n" after)

unfoldable pub parse_participant_response :
    String → List ParticipantSignal → Result ParticipantError ParticipantResponse
unfolding read_marker join_body
parse_participant_response text allowed = do
  guard ParticipantError.marker_count
      (not (occurrences marker_open text != 1 || occurrences marker_close text != 1))
  opened ← ok_or (split_around marker_open text) ParticipantError.marker_count
  closed ← ok_or (split_around marker_close opened.1) ParticipantError.marker_order
  marked ← read_marker (trim closed.0)
  signal ← ok_or (parse_signal marked.0) ParticipantError.unknown_result
  guard ParticipantError.result_not_allowed (contains allowed signal)
  ok (record {
    signal = signal;
    blocked_reason = marked.1;
    body = join_body (trim opened.0) (trim closed.1);
  })
