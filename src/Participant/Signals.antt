-- ===== src/Participant/Signals.antt =====
-- What a response that was parsed says.
use worktree_merge_consensus.Prelude.{
  ◌≡◌, ◌⊎◌, inl, inr, refl, arith, true, none, some, Option, Option-cases, eqb_sound, String, List,
  contains, eqb, String-discrete,
}
use worktree_merge_consensus.Prelude.Results.{ok, Result-cases}
use worktree_merge_consensus.Text.{trim}
use worktree_merge_consensus.Participant.{
  ParticipantSignal, ParticipantResponse, signal_eq, signal_name, parse_signal, marker_open,
  marker_close, split_around, is_reason, read_marker, parse_participant_response,
}

-- The name of a signal is read back as that signal.
pub parse_signal-signal_name : (s : ParticipantSignal) → parse_signal (signal_name s) ≡ some s
unfolding parse_signal signal_name eqb String-discrete
parse_signal-signal_name ParticipantSignal.contract_ready = refl
parse_signal-signal_name ParticipantSignal.plan_ready = refl
parse_signal-signal_name ParticipantSignal.approved = refl
parse_signal-signal_name ParticipantSignal.changes_required = refl
parse_signal-signal_name ParticipantSignal.integration_ready = refl
parse_signal-signal_name ParticipantSignal.verification_ready = refl
parse_signal-signal_name ParticipantSignal.blocked = refl

reason_of_blocked :
    (value : String) {name : String} {reason : Option String}
    → read_marker value ≡ ok (name, reason)
    → (reason ≡ none)
      ⊎ ((name ≡ "BLOCKED") × ((text : String) × (reason ≡ some text) × (is_reason text ≡ true)))
unfolding read_marker
reason_of_blocked value h = elim (Option-cases (split_around ":" value)) [
  | inl whole ↦ inl (ground arith)
  | inr ((signal, text), found) ↦ inr (
    ground (arith, eqb_sound String-discrete (trim signal) "BLOCKED"),
    (trim text, ground arith, ground arith),
  )
]

-- What was read on the way to a response.
abbrev Parts : List ParticipantSignal → ParticipantResponse → Type 0
Parts allowed r =
    (value : String) × (name : String) × (read_marker value ≡ ok (name, r.blocked_reason))
    × (parse_signal name ≡ some r.signal)
    × (contains allowed r.signal ≡ true)

response-Parts :
    (text : String) (allowed : List ParticipantSignal) (r : ParticipantResponse)
    → parse_participant_response text allowed ≡ ok r
    → Parts allowed r
unfolding parse_participant_response
response-Parts text allowed r h = elim (Option-cases (split_around marker_open text)) [
  | inl missing ↦ absurd (ground arith)
  | inr ((before, opened), o) ↦ elim (Option-cases (split_around marker_close opened)) [
    | inl missing ↦ absurd (ground arith)
    | inr ((value, after), k) ↦ elim (Result-cases (read_marker (trim value))) [
      | inr (x, lost) ↦ absurd (ground arith)
      | inl ((name, reason), m) ↦ elim (Option-cases (parse_signal name)) [
        | inl unknown ↦ absurd (ground arith)
        | inr (signal, p) ↦ (trim value, name, ground arith, ground arith, ground arith)
      ]
    ]
  ]
]

-- A response that is parsed has a signal that the turn allows, and a reason only where the signal is
-- BLOCKED, of 1 to 64 upper case letters, digits and underscores.
pub parse_participant_response-ok :
    (text : String) (allowed : List ParticipantSignal) (r : ParticipantResponse)
    → parse_participant_response text allowed ≡ ok r
    → (contains allowed r.signal ≡ true)
      × ((r.blocked_reason ≡ none)
          ⊎ ((r.signal ≡ ParticipantSignal.blocked)
              × ((reason : String) × (r.blocked_reason ≡ some reason) × (is_reason reason ≡ true))))
unfolding signal_name
parse_participant_response-ok text allowed r h =
    let (value, name, read, parsed, granted) = response-Parts text allowed r h in
    (
      granted,
      elim (reason_of_blocked value read) [
        | inl absent ↦ inl absent
        | inr (named, why) ↦
            inr (
              ground (arith, parse_signal-signal_name ParticipantSignal.blocked, parsed, named),
              why,
            )
      ],
    )
