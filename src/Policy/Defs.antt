-- ===== src/Policy/Defs.antt =====
-- crates/daemon/src/policy.rs: the types of a decision, and what the policy takes from outside.
use worktree_merge_consensus.Prelude.{ℕ, Bool, String, Option, List}
use worktree_merge_consensus.State.Defs.{PathBuf}

pub data ApprovalDecision : Type 0 where
  accept cancel : ApprovalDecision

-- The reasons of a denial, without their texts.
pub data Denial : Type 0 where
  wrong_cwd subcommand_callback remote_environment additional_permissions : Denial
  accept_unavailable unsupported_command empty_command shell_control outside_allowlist : Denial

-- `shell_words::split`, where none is its error; whether `semver::Version::parse` succeeds; the
-- letters and digits of Unicode (`char::is_alphanumeric`); and the text of a path (`Path::to_str`).
pub record Shell : Type 0 where
  pub split : String → Option (List String)
  pub is_version : String → Bool
  pub is_alphanumeric : ℕ → Bool
  pub to_str : PathBuf → Option String
