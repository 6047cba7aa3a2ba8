-- ===== src/Participant/Rendered.antt =====
-- A response that ends with a signal's marker is read as that signal, with the text before as body.
use Prim.Native.Char.{Char, code}
use worktree_merge_consensus.Prelude.{
  ◌≡◌, ◌∙◌, ap, refl, arith, Bool, true, false, not, ◌&&◌, none, some, String, List, contains, eqb,
  ◌==◌, nat_eq, string_eq,
}
use native.Mathlib.Decide.{ℕ_discrete}
use worktree_merge_consensus.Prelude.Results.{ok}
use worktree_merge_consensus.Text.{trim, starts_with, is_empty, trim_start, trim_end, is_whitespace}
use worktree_merge_consensus.Participant.{
  append, ParticipantSignal, signal_eq, signal_name, marker_open, marker_close, occurrences, skip,
  split_around, read_marker, parse_participant_response,
}
use worktree_merge_consensus.Participant.Signals.{parse_signal-signal_name}

-- No character is `<`.
abbrev pub is_plain : String → Bool
is_plain String.[] = true
is_plain (String.◌∷◌ c s) = not (code c == 60) && is_plain s

-- The marker of a signal, and a response that ends with it.
abbrev pub marker_of : ParticipantSignal → String
marker_of s = append marker_open (append (signal_name s) marker_close)

append_nil : (s : String) → append s String.[] ≡ s
unfolding append
append_nil String.[] = refl
append_nil (String.◌∷◌ c s) = ap (String.◌∷◌ c) (append_nil s)

module _ (marker : String)
    (begins : (c : Char) (s : String)
      → (code c == 60) ≡ false
      → starts_with (String.◌∷◌ c s) marker ≡ false) where
  occurrences-plain :
      (before t : String)
      → is_plain before ≡ true
      → occurrences marker (append before t) ≡ occurrences marker t
  unfolding occurrences append
  occurrences-plain String.[] t h = refl
  occurrences-plain (String.◌∷◌ c s) t h =
      rw (begins c (append s t) (ground arith)) (occurrences-plain s t (ground arith))

  split_around-plain :
      (before t : String) {a b : String}
      → is_plain before ≡ true
      → split_around marker t ≡ some (a, b)
      → split_around marker (append before t) ≡ some (append before a, b)
  unfolding split_around append
  split_around-plain String.[] t h e = e
  split_around-plain (String.◌∷◌ c s) t h e =
      rw (begins c (append s t) (ground arith)) (rw (split_around-plain s t (ground arith) e) refl)

open_begins :
    (c : Char) (s : String)
    → (code c == 60) ≡ false
    → starts_with (String.◌∷◌ c s) marker_open ≡ false
unfolding starts_with
open_begins c s h = ground arith

close_begins :
    (c : Char) (s : String)
    → (code c == 60) ≡ false
    → starts_with (String.◌∷◌ c s) marker_close ≡ false
unfolding starts_with
close_begins c s h = ground arith

-- What is found in a signal's marker.
marker_parts :
    (s : ParticipantSignal)
    → (occurrences marker_open (marker_of s) ≡ 1)
      × (occurrences marker_close (marker_of s) ≡ 1)
      × (split_around marker_open (marker_of s)
          ≡ some (String.[], append (signal_name s) marker_close))
      × (split_around marker_close (append (signal_name s) marker_close)
          ≡ some (signal_name s, String.[]))
      × (read_marker (trim (signal_name s)) ≡ ok (signal_name s, none))
unfolding occurrences split_around starts_with signal_name read_marker trim is_whitespace eqb
    ℕ_discrete skip append
marker_parts ParticipantSignal.contract_ready = (refl, refl, refl, refl, refl)
marker_parts ParticipantSignal.plan_ready = (refl, refl, refl, refl, refl)
marker_parts ParticipantSignal.approved = (refl, refl, refl, refl, refl)
marker_parts ParticipantSignal.changes_required = (refl, refl, refl, refl, refl)
marker_parts ParticipantSignal.integration_ready = (refl, refl, refl, refl, refl)
marker_parts ParticipantSignal.verification_ready = (refl, refl, refl, refl, refl)
marker_parts ParticipantSignal.blocked = (refl, refl, refl, refl, refl)

-- A text without `<`, followed by the marker of a signal that the turn allows, is read as that signal
-- without a reason, with the text, trimmed, as its body.
pub parse_participant_response-marker_of :
    (before : String) (s : ParticipantSignal) (allowed : List ParticipantSignal)
    → is_plain before ≡ true
    → contains allowed s ≡ true
    → parse_participant_response (append before (marker_of s)) allowed
      ≡ ok (record { signal = s; blocked_reason = none; body = trim before })
unfolding parse_participant_response eqb ℕ_discrete trim trim_start trim_end is_empty
parse_participant_response-marker_of before s allowed plain granted =
    let (one_open, one_close, opened, closed, read) = marker_parts s in
    let opens = occurrences-plain marker_open open_begins before (marker_of s) plain ∙ one_open in
    let closes =
      occurrences-plain marker_close close_begins before (marker_of s) plain ∙ one_close in
    let start = split_around-plain marker_open open_begins before (marker_of s) plain opened in
    rw opens (
      rw closes (
        rw start (
          rw closed (
            rw read (rw (parse_signal-signal_name s) (rw granted (rw (append_nil before) refl)))))))
