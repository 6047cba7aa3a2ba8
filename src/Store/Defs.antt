-- ===== src/Store/Defs.antt =====
-- crates/daemon/src/store.rs: the rows of the tables, the errors, and the values that are returned.
use worktree_merge_consensus.Prelude.{ℕ, Bool, String, Option, List, Eq}
use worktree_merge_consensus.Json.{Value}
use worktree_merge_consensus.State.Defs.{ℤ, PathBuf, Phase, RunStatus, RunFacts, RunState}

-- What the store takes from outside: `serde_json` with the codec that serde derives for a state, the
-- version number that a document holds, and the texts of paths (`to_string_lossy` and `to_str`).
pub record Storage : Type 1 where
  pub Text : Type 0
  pub Document : Type 0
  pub to_string : RunState → Text
  pub from_str : Text → Option Document
  pub version_of : Document → Option ℕ
  pub from_value : Document → Option RunState
  pub to_string_lossy : PathBuf → String
  pub to_str : PathBuf → Option String

pub data StoreError : Type 0 where
  active_run_exists run_not_found pending_send_not_found terminal_turn_not_retryable : StoreError
  verification_execution_uncertain database serialization incompatible_state io poisoned :
      StoreError

unfoldable pub code : StoreError → String
code StoreError.active_run_exists = "ACTIVE_RUN_EXISTS"
code StoreError.run_not_found = "RUN_NOT_FOUND"
code StoreError.pending_send_not_found = "PENDING_SEND_NOT_FOUND"
code StoreError.terminal_turn_not_retryable = "TERMINAL_TURN_NOT_RETRYABLE"
code StoreError.verification_execution_uncertain = "VERIFICATION_EXECUTION_UNCERTAIN"
code StoreError.database = "DATABASE_ERROR"
code StoreError.serialization = "SERIALIZATION_ERROR"
code StoreError.incompatible_state = "INCOMPATIBLE_STATE"
code StoreError.io = "IO_ERROR"
code StoreError.poisoned = "LOCK_POISONED"

pub data Delivery : Type 0 where
  pending sent accepted : Delivery

unfoldable pub Delivery-discrete : Discrete Delivery
Delivery-discrete = hlevel

instance abbrev pub delivery_eq : Eq Delivery
delivery_eq = record { dec_eq = Delivery-discrete }

pub data Execution : Type 0 where
  started completed : Execution

unfoldable pub Execution-discrete : Discrete Execution
Execution-discrete = hlevel

instance abbrev pub execution_eq : Eq Execution
execution_eq = record { dec_eq = Execution-discrete }

-- `runs`: the encoded state, and the columns that are copied from it.
pub record RunRow (Text : Type 0) : Type 0 where
  pub run_id : ℕ
  pub state_json : Text
  pub status : RunStatus
  pub phase : Phase
  pub round : ℕ
  pub plan_revision : Option ℕ
  pub integration_branch : Option String
  pub integration_sha : Option String
  pub reason_code : Option String
  pub updated_at : ℕ

-- `source_facts`
pub record FactsRow : Type 0 where
  pub run_id : ℕ
  pub facts : RunFacts

-- `locks`
pub record LockRow : Type 0 where
  pub repository_id : String
  pub run_id : ℕ
  pub primary_worktree : String

-- `turns`
pub record TurnRow : Type 0 where
  pub id : ℕ
  pub run_id : ℕ
  pub role : String
  pub phase : String
  pub round : ℕ
  pub message_hash : String
  pub response_hash : Option String
  pub delivery_state : Delivery
  pub thread_id : Option String
  pub turn_id : Option String
  pub capability_generation : Option String
  pub participant_binding_generation : Option ℕ
  pub turn_start_intent_at : Option ℕ

-- `turn_attempts`
pub record AttemptRow : Type 0 where
  pub turn_record_id : ℕ
  pub run_id : ℕ
  pub message_hash : String
  pub thread_id : String
  pub turn_id : String
  pub terminal_status : String

-- `verification_command_executions`
pub record ExecutionRow : Type 0 where
  pub run_id : ℕ
  pub message_hash : String
  pub turn_id : String
  pub item_id : String
  pub command_index : ℕ
  pub command : String
  pub cwd : String
  pub status : Execution
  pub exit_code : Option ℤ
  pub stdout : Option String
  pub stderr : Option String

-- `transitions`
pub record TransitionRow : Type 0 where
  pub run_id : ℕ
  pub from_phase : Phase
  pub to_phase : Phase
  pub status : RunStatus
  pub reason_code : Option String
  pub response_hash : Option String

-- `run_events`: an event is kept as the two states that it is made from.
pub record EventRow : Type 0 where
  pub id : ℕ
  pub run_id : ℕ
  pub previous : Option RunState
  pub state : RunState

-- `patch_applications`
pub record PatchRow : Type 0 where
  pub run_id : ℕ
  pub message_hash : String
  pub patch_hash : String
  pub source_primary_thread_id : Option String
  pub effective_primary_thread_id : Option String
  pub participant_binding_generation : Option ℕ

pub data PrimaryBindingMode : Type 0 where
  direct ephemeral_fork : PrimaryBindingMode

unfoldable pub PrimaryBindingMode-discrete : Discrete PrimaryBindingMode
PrimaryBindingMode-discrete = hlevel

instance abbrev pub mode_eq : Eq PrimaryBindingMode
mode_eq = record { dec_eq = PrimaryBindingMode-discrete }

pub record PrimaryParticipantBinding : Type 0 where
  pub run_id : ℕ
  pub source_primary_thread_id : String
  pub effective_primary_thread_id : String
  pub mode : PrimaryBindingMode
  pub generation : ℕ
  pub participant_server : String
  pub source_history_hash : Option String
  pub created_at : ℕ
  pub verified_at : ℕ

-- `primary_participant_bindings`
pub record BindingRow : Type 0 where
  pub binding : PrimaryParticipantBinding
  pub active : Bool

-- `turn_event_completions` and `archived_turn_event_completions`
pub record CompletionRow : Type 0 where
  pub turn_record_id : ℕ
  pub run_id : ℕ
  pub thread_id : String
  pub turn_id : String
  pub completed_turn_json : Value

pub data Lifecycle : Type 0 where
  started completed : Lifecycle

unfoldable pub Lifecycle-discrete : Discrete Lifecycle
Lifecycle-discrete = hlevel

instance abbrev pub lifecycle_eq : Eq Lifecycle
lifecycle_eq = record { dec_eq = Lifecycle-discrete }

-- `turn_event_items`. A JSON text in this and the next table is kept as its value.
pub record ItemRow : Type 0 where
  pub turn_record_id : ℕ
  pub run_id : ℕ
  pub thread_id : String
  pub turn_id : String
  pub item_id : String
  pub item_type : String
  pub lifecycle_state : Lifecycle
  pub item_json : Value

-- The tables, each with its newest row first, and the numbers that the next rows of `turns` and of
-- `run_events` get.
pub record Database (Text : Type 0) : Type 0 where
  pub runs : List (RunRow Text)
  pub source_facts : List FactsRow
  pub locks : List LockRow
  pub turns : List TurnRow
  pub next_turn : ℕ
  pub turn_attempts : List AttemptRow
  pub turn_event_items : List ItemRow
  pub turn_event_completions : List CompletionRow
  pub archived_completions : List CompletionRow
  pub executions : List ExecutionRow
  pub transitions : List TransitionRow
  pub run_events : List EventRow
  pub next_event : ℕ
  pub patch_applications : List PatchRow
  pub bindings : List BindingRow

abbrev pub empty_database : {Text : Type 0} → Database Text
empty_database = record {
  runs = List.[];
  source_facts = List.[];
  locks = List.[];
  turns = List.[];
  next_turn = 1;
  turn_attempts = List.[];
  turn_event_items = List.[];
  turn_event_completions = List.[];
  archived_completions = List.[];
  executions = List.[];
  transitions = List.[];
  run_events = List.[];
  next_event = 1;
  patch_applications = List.[];
  bindings = List.[];
}
