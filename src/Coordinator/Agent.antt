-- ===== src/Coordinator/Agent.antt =====
-- The agents and worktrees that src/symphony/coordinator.py drives: the values of
-- src/symphony/models.py that they exchange, the interface of src/symphony/providers/base.py, and the
-- operations of src/symphony/workspace.py. An answer depends on the tick of the call.
use openhands_symphony.Base.{ℕ, String, Bool, Option, List}
use openhands_symphony.Models.{IssueSnapshot, ValidationResult, Job}
use openhands_symphony.Coordinator.Exec.{ProviderRun, Outcome}

pub record AuthStatus : Type 0 where
  pub available : Bool
  pub authenticated : Bool
  pub detail : String

pub record QuotaState : Type 0 where
  pub limited : Bool
  pub retry_after_seconds : Option ℕ
  pub detail : String

pub data ProviderOutcome : Type 0 where
  completed needs_guidance blocked failed canceled : ProviderOutcome

unfoldable pub outcome_text : ProviderOutcome → String
outcome_text ProviderOutcome.completed = "completed"
outcome_text ProviderOutcome.needs_guidance = "needs-guidance"
outcome_text ProviderOutcome.blocked = "blocked"
outcome_text ProviderOutcome.failed = "failed"
outcome_text ProviderOutcome.canceled = "canceled"

-- Of `raw` the keys that the coordinator reads, `none` where the key is absent. A count of findings
-- is a number here; a negative one would count as some.
pub record ProviderResult : Type 0 where
  pub outcome : ProviderOutcome
  pub summary : String
  pub question_or_reason : String
  pub conversation_id : Option String
  pub session_id : Option String
  pub failure_kind : Option String
  pub review_event : Option String
  pub substantive_findings : Option ℕ

-- What a turn of an agent is asked for; the texts are made from these values.
pub data Prompt : Type 0 where
  implementation_prompt : (job : Job) (quality_gate_required : Bool) → Prompt
  guidance_prompt : (guidance : String) → Prompt
  correction_prompt :
      (job : Job) (changed_paths : List String) (results : List ValidationResult)
      (validation_summary : String) (incomplete failing : Bool)
      → Prompt
  review_prompt : (job : Job) (github_context : String) → Prompt
  repair_prompt : (review_body : String) → Prompt

-- A provider adapter, with its capabilities.
pub record Provider : Type 0 where
  pub name : String
  pub autonomous_available : Bool
  pub supports_review : Bool
  pub supports_resume : Bool
  pub limitation : String
  pub auth_status : ℕ → Outcome AuthStatus
  pub health : ℕ → Outcome (Bool × String)
  pub quota_or_rate_limit_state : ℕ → Outcome QuotaState
  pub start :
      (worktree : String)
      → Prompt
      → (run_id : String) → (read_only : Bool) → ℕ
      → Outcome ProviderRun
  pub resume_run : ProviderRun → Prompt → ℕ → Outcome ProviderRun
  pub wait : ProviderRun → ℕ → Outcome ProviderResult
  pub cancel : ProviderRun → ℕ → Outcome (Unit {0})

-- `WorkspaceManager`, `run_validation` and the test for the quality gate.
pub record Workspaces : Type 0 where
  pub checkout : Job → IssueSnapshot → ℕ → Outcome String
  pub prepare_for_agent : (worktree : String) → ℕ → Outcome (Unit {0})
  pub verify_integrity : Job → (worktree : String) → ℕ → Outcome (Unit {0})
  pub run_setup : (worktree repository : String) → ℕ → Outcome (Option ValidationResult)
  pub run_validation : (command : List String) → (worktree : String) → ℕ → Outcome ValidationResult
  pub has_quality_gate : (worktree : String) → ℕ → Outcome Bool
  pub changed_paths : (worktree default_branch : String) → ℕ → Outcome (List String)
  pub has_changes : (worktree : String) → ℕ → Outcome Bool
  pub commit_changes : (worktree : String) → (issue_number : ℕ) → ℕ → Outcome (Unit {0})
  pub commits_ahead : (worktree default_branch : String) → ℕ → Outcome ℕ
  pub remote_matches : (worktree repository branch : String) → ℕ → Outcome Bool
  pub push : (worktree repository branch : String) → ℕ → Outcome (Unit {0})
