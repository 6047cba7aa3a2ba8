-- ===== src/Lib.antt =====
-- worktree-merge-consensus: two coding tasks, the Primary and the Reviewer, agree on how to merge
-- their worktrees. A daemon keeps one state per run, asks the task whose turn it is for the next
-- message, and applies the message to the state. The library models what decides of an agreement:
-- the state machine of a run, the messages it takes, the markers by which a task says what its turn
-- came to, and the hash by which plans and issues are compared.
--
-- The parts and how they meet. The daemon hands each message to `RunState::apply_message`
-- (crates/core/src/state.rs), which reads it again by `validate_message` (crates/core/src/protocol.rs),
-- compares its envelope with the frozen facts of the run and runs the handler of its type. Plans,
-- contracts and issues are compared by `canonical_json_hash` (crates/core/src/hash.rs). Beside the
-- messages the daemon calls control operations (pause, resume, cancel, acceptance, …) and thirteen
-- recoveries of a blocked run. The store (crates/daemon/src/store.rs) saves and loads a state only if
-- `validate_persisted` passes, and keeps the turns, the locks and the commands of a verification beside
-- it. While an integration or a verification is pending, the task asks to run commands, and the policy
-- (crates/daemon/src/policy.rs) answers by the state.
--
-- Files:
--   Prelude            shared names; equality tests as a class (Prelude/Equality), lists and their
--                      multiplicities, `Result` with `?` as bind
--   Text               `str::trim` and the tests of texts, on native strings
--   Json               serde_json's `Value` with its accessors; Json/Canonical is hash.rs
--   Protocol           the envelope and the types of protocol.rs; Protocol/Invariants has
--                      `validate_invariants`, Protocol/Reading `validate_message`, Protocol/Approvals
--                      what an approval that passed them binds
--   Participant        the marker of a task's response (crates/core/src/participant.rs)
--   State/Defs         the types of state.rs, `RunState::new`, and the parameters (`Codec`)
--   State/Exec         methods on `&mut self` as functions from a state to a result and a state
--   State/Evidence     the frozen commands and the evidence for them
--   State/Requirements the `require_*` and `verify_*` checks; State/Transitions the shared steps
--   State/Planning, State/Integration, State/Review   the handlers; State/Messages `apply_message`
--   State/Feedback     the feedback of a verification and the fingerprint of a review
--   State/Control      the control operations; State/Recovery and its children the recoveries
--   State/Persisted    `validate_persisted`
--   State/Workspace    the workspace of a verification, which the coordinator
--                      (crates/daemon/src/coordinator.rs) writes into the state
--   State/Operations   every operation on a state as one function, `perform`, and the states reached,
--                      `Reach`
--   State/Soundness    the invariant that the storage check follows from, operation by operation
--   State/Steering     the operations that only steer; State/Frame what no operation changes
--   State/Atomic, State/Bounds, State/Progress, State/Outcomes, State/Approvals, State/Freshness,
--   State/Commands, State/Consent, State/Accepted, State/Liveness, State/Final
--                      the properties of the runs
--   Policy             the command policy: Policy/Words the tests of words, Policy/Git the calls of git,
--                      Policy/Replay what may have run before a turn is sent again, Policy/Approval
--                      the decision, Policy/Paths `Path::components`; Policy/Permitted lists the
--                      allowed calls of git, Policy/Decided, Policy/Reached and Policy/Retried say
--                      what an allowed command is
--   Store              the tables (Store/Defs), a transaction (Store/Txn), the codec with its checks
--                      (Store/Codec), and the operations: Store/Runs on runs and locks, Store/Turns,
--                      Store/Archive and Store/TurnEvents on turns, Store/Verification, Store/Patches,
--                      Store/Bindings with Store/Bindings/Rotation, and Store/Reactivation on blocked
--                      runs; Store/Calls has them as one function, `call`, and in sequence,
--                      `run_calls`; Store/Frames, Store/OperationFrames, Store/StateFrames and
--                      Store/BindingFrames have what each leaves alone; Store/Refinement,
--                      Store/Locks, Store/Once with Store/Claims, Store/Reached, Store/Patched,
--                      Store/FinalItems with Store/StaleItems, Store/Evidence and Store/OneActive
--                      the properties
--   Examples           a run from its start to acceptance, and the theorems at it
--
-- The correspondence. A record or a data type has the fields or the variants of the source. A method
-- has the method's name; a `?` is a bind, and what was written before an early return stays
-- written. Error texts are left out, error codes kept. `u32` counters wrap at 2 ^ 32, the `u8` streak
-- saturates at 255. A `PathBuf` is its components, a run's UUID a number. The state's two JSON codecs,
-- the JSON schema validator and the digest (`serde_json::to_vec`, SHA-256, hex) are the parameters
-- `Wire` and `Codec`; no theorem assumes anything of them. Loops are recursion on lists, so there is
-- no fuel. `Reach` takes any order of operations with any arguments: the methods of `RunState`, and
-- `prepare_verification_workspace`, the one place where the coordinator assigns a field itself. Left
-- out are `block`, `cancel` and `mark_incompatible` over an accepted run, as the store refuses what
-- they give there, and the workspace where no verification is asked for, as the coordinator prepares
-- none.
--
-- The policy takes `shell_words::split`, whether `semver` reads a version, Unicode's letters and digits
-- and the text of a path from the record `Shell`, and no theorem assumes anything of them.
-- A table is the list of its rows with the newest first, and a query by `ORDER BY id DESC LIMIT 1` the
-- first that fits. The uniqueness that the schema declares is a check before the insertion, whose
-- failure is the database's error; times that are only written are left out. A transaction gives the
-- tables that it leaves or an error, and `commit` then keeps the old ones. What the store takes from
-- serde and from paths is the record `Storage`, and no theorem assumes anything of it: a theorem on what
-- is loaded says that a run is loaded as the text reads that was written for its state (`read_back`).
-- The operations that make a blocked run active again write the same in the same order (a lock, the
-- events or the turn that they clear, the state, a transition), which is `reactivate`. What each of
-- them reads to decide is an argument of it, so that the theorems hold whatever it decides; four of
-- them are given with what they read (Store/Reactivation/Sent). An event of
-- `run_events` is kept as the two states that it is made from.
--
-- Not modelled: Git inspection and prompts in crates/core; the rest of the coordinator, observation and
-- the server in crates/daemon, and of the store the checks of five of the reactivations and of
-- the recovery from v0.2.5, the lists of runs and events, and the opening of the file; the app server
-- client, the command line and the MCP server. They are I/O around the state machine.
pub mod Prelude
pub mod Text
pub mod Json
pub mod Protocol
pub mod Participant
pub mod Policy
pub mod Store
pub mod State
pub mod Examples
