-- ===== src/Store/Reactivation/Sent.antt =====
-- crates/daemon/src/store.rs: reactivations that send a turn again that was sent, with their checks.
use worktree_merge_consensus.Prelude.{
  ℕ, Bool, true, false, not, ◌&&◌, ◌||◌, String, none, some, any, count_of, ◌==◌, nat_eq, string_eq,
  option_eq,
}
use worktree_merge_consensus.Prelude.Results.{Result, ◌>>◌, guard, is_ok}
use worktree_merge_consensus.State.Defs.{
  RunState, RunStatus, Phase, Role, NextAction, status_eq, phase_eq, role_eq, action_eq,
}
use worktree_merge_consensus.State.Equality.{state_eq, facts_eq}
use worktree_merge_consensus.State.Recovery.Verification.{
  retry_blocked_verification_without_execution,
}
use worktree_merge_consensus.Store.Defs.{Storage, StoreError, Delivery, AttemptRow, Database}
use worktree_merge_consensus.Store.Reactivation.{Reactivation, reactivate, is_unchanged}

abbrev pub sent_turn : RunState → RunState → String → String → String → String → Bool → Reactivation
sent_turn blocked resumed hash thread_id turn_id observed is_transition = record {
  blocked = blocked;
  resumed = resumed;
  stale = none;
  attempt = some (record {
    message_hash = hash;
    thread_id = thread_id;
    turn_id = turn_id;
    delivery = Delivery.sent;
    observed_status = observed;
  });
  is_transition = is_transition;
}

-- The run is blocked for the reason, at an action of the Primary.
unfoldable pub is_blocked_at : String → NextAction → RunState → Bool
is_blocked_at reason action blocked = elim blocked.last_error [
  | none ↦ false
  | some diagnostic ↦
      blocked.status == RunStatus.blocked
      && blocked.reason_code == some reason
      && diagnostic.code == reason
      && diagnostic.action == action
      && diagnostic.role == some Role.primary
]

abbrev pub unavailable : String
unavailable = "completed-evidence-unavailable"

abbrev pub migrated : String
migrated = "completed-unattended-verification-migration"

-- How often the request ended so.
unfoldable pub attempts_of : {Text : Type 0} → ℕ → String → String → Database Text → ℕ
attempts_of run_id hash status db =
    count_of
      (λ (attempt : AttemptRow).
        attempt.run_id == run_id
        && attempt.message_hash == hash
        && attempt.terminal_status == status)
      db.turn_attempts

-- The recovery gives the state, and without an error.
unfoldable pub is_migration : RunState → RunState → Bool
is_migration blocked resumed =
    is_ok (retry_blocked_verification_without_execution blocked).0
    && (retry_blocked_verification_without_execution blocked).1 == resumed

module _ (st : Storage) where
  unfoldable pub reactivate_blocked_run_with_completed_turn_retry :
      ℕ
      → RunState
      → RunState
      → String
      → String
      → String
      → String
      → Database st.Text
      → Result StoreError (Unit {0}) × Database st.Text
  reactivate_blocked_run_with_completed_turn_retry now blocked resumed hash thread_id turn_id
        observed db =
      reactivate st now (sent_turn blocked resumed hash thread_id turn_id observed false)
        (guard StoreError.terminal_turn_not_retryable (
            blocked.status == RunStatus.blocked
            && resumed.status == RunStatus.running
            && blocked.facts == resumed.facts
            && observed == "completed")
          >> is_unchanged st blocked db)
        db

  unfoldable pub reactivate_blocked_run_with_interrupted_forbidden_operation_retry :
      ℕ
      → RunState
      → RunState
      → String
      → String
      → String
      → String
      → Database st.Text
      → Result StoreError (Unit {0}) × Database st.Text
  reactivate_blocked_run_with_interrupted_forbidden_operation_retry now blocked resumed hash
        thread_id turn_id observed db =
      reactivate st now (sent_turn blocked resumed hash thread_id turn_id observed true)
        (guard StoreError.terminal_turn_not_retryable (
            is_blocked_at "FORBIDDEN_OPERATION" NextAction.request_primary_integration blocked
            && resumed.status == RunStatus.running
            && blocked.facts == resumed.facts
            && (observed == "failed" || observed == "interrupted"))
          >> is_unchanged st blocked db)
        db

  unfoldable pub reactivate_blocked_run_with_verification_evidence_retry :
      ℕ
      → RunState
      → RunState
      → String
      → String
      → String
      → String
      → Database st.Text
      → Result StoreError (Unit {0}) × Database st.Text
  reactivate_blocked_run_with_verification_evidence_retry now blocked resumed hash thread_id turn_id
        observed db =
      reactivate st now (sent_turn blocked resumed hash thread_id turn_id unavailable false)
        (guard StoreError.terminal_turn_not_retryable (
            is_blocked_at "TEST_FAILURE" NextAction.request_primary_verification blocked
            && resumed.status == RunStatus.running
            && resumed.phase == Phase.verify
            && resumed.next_action == NextAction.request_primary_verification
            && blocked.facts == resumed.facts
            && observed == "completed")
          >> is_unchanged st blocked db
          >> guard StoreError.terminal_turn_not_retryable
              (attempts_of blocked.facts.run_id hash unavailable db == 0))
        db

  unfoldable pub reactivate_blocked_run_with_unattended_verification_retry :
      ℕ
      → RunState
      → RunState
      → String
      → String
      → String
      → String
      → Database st.Text
      → Result StoreError (Unit {0}) × Database st.Text
  reactivate_blocked_run_with_unattended_verification_retry now blocked resumed hash thread_id
        turn_id observed db =
      reactivate st now (sent_turn blocked resumed hash thread_id turn_id migrated false)
        (guard StoreError.terminal_turn_not_retryable (
            is_migration blocked resumed
            && thread_id == blocked.facts.primary_thread_id
            && observed == "completed")
          >> is_unchanged st blocked db
          >> guard StoreError.terminal_turn_not_retryable (
              attempts_of blocked.facts.run_id hash unavailable db == 1
              && not (
                  any
                    (λ (attempt : AttemptRow).
                      attempt.run_id == blocked.facts.run_id && attempt.terminal_status == migrated)
                    db.turn_attempts)))
        db
