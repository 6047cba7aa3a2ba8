-- ===== src/Examples/Responses.antt =====
-- The theorems on a participant's response at one response.
use worktree_merge_consensus.Prelude.{
  ◌≡◌, ◌⊎◌, refl, true, false, none, some, String, List, [], ◌∷◌, contains, eqb, nat_eq,
}
use native.Mathlib.Decide.{ℕ_discrete}
use worktree_merge_consensus.Prelude.Results.{ok}
use worktree_merge_consensus.Text.{trim, is_empty}
use worktree_merge_consensus.Participant.{
  ParticipantSignal, ParticipantSignal-discrete, ParticipantResponse, append, signal_eq, is_reason,
  parse_participant_response,
}
use worktree_merge_consensus.Participant.Signals.{parse_participant_response-ok}
use worktree_merge_consensus.Participant.Rendered.{
  is_plain, marker_of, parse_participant_response-marker_of,
}

abbrev verdicts : List ParticipantSignal
verdicts = ParticipantSignal.changes_required ∷ ParticipantSignal.approved ∷ []

abbrev approval : String
approval = append "The plan is complete. " (marker_of ParticipantSignal.approved)

abbrev approved_response : ParticipantResponse
approved_response = record {
  signal = ParticipantSignal.approved;
  blocked_reason = none;
  body = trim "The plan is complete. ";
}

approved_allowed : contains verdicts ParticipantSignal.approved ≡ true
unfolding eqb ParticipantSignal-discrete contains
approved_allowed = refl

plain_text : is_plain "The plan is complete. " ≡ true
unfolding eqb ℕ_discrete
plain_text = refl

parse_participant_response-marker_of_example :
    parse_participant_response approval verdicts ≡ ok approved_response
parse_participant_response-marker_of_example =
    parse_participant_response-marker_of "The plan is complete. " ParticipantSignal.approved
      verdicts plain_text approved_allowed

-- The same, for the theorem that follows.
approval_parsed : parse_participant_response approval verdicts ≡ ok approved_response
approval_parsed =
    parse_participant_response-marker_of "The plan is complete. " ParticipantSignal.approved
      verdicts plain_text approved_allowed

parse_participant_response-ok_example :
    (contains verdicts approved_response.signal ≡ true)
    × ((approved_response.blocked_reason ≡ none)
        ⊎ ((approved_response.signal ≡ ParticipantSignal.blocked)
            × ((reason : String) × (approved_response.blocked_reason ≡ some reason)
                × (is_reason reason ≡ true))))
parse_participant_response-ok_example =
    parse_participant_response-ok approval verdicts approved_response approval_parsed

-- A refused reason.
reason_refused : is_reason "disk full" ≡ false
unfolding is_reason eqb ℕ_discrete is_empty
reason_refused = refl
