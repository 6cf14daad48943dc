-- ===== src/Coordinator/Host.antt =====
-- What src/symphony/coordinator.py works with: the configuration, the GitHub backend and the
-- provider adapters behind their interfaces (the protocols of src/symphony/github.py and
-- src/symphony/providers/base.py), and Python's runtime. An answer depends on the tick of the call.
use openhands_symphony.Base.{ℕ, String, Bool, Option, List}
use openhands_symphony.Models.{Timestamp, IssueSnapshot, Hashing, Job}
use openhands_symphony.Store.Control.{EventSearch, Command}
use openhands_symphony.Intake.{Unicode}
use openhands_symphony.Config.{Config}
use openhands_symphony.Coordinator.Agent.{Provider, Workspaces}
use openhands_symphony.Coordinator.Exec.{ProviderRun, Failure, Outcome}

pub record PullRequest : Type 0 where
  pub number : ℕ
  pub url : String

-- One entry of `statusCheckRollup`, by the texts of its keys.
pub record Check : Type 0 where
  pub name : Option String
  pub context : Option String
  pub conclusion : Option String
  pub state : Option String
  pub status : Option String

pub record GitHub : Type 0 where
  pub get_issue : String → ℕ → ℕ → Outcome IssueSnapshot
  pub find_open_pr : String → String → ℕ → Outcome (Option PullRequest)
  pub remote_branch_exists : String → String → ℕ → Outcome Bool
  pub set_state_labels : Job → ℕ → Outcome (Unit {0})
  pub update_status_comment : Job → ℕ → Outcome ℕ
  pub set_control_state : String → ℕ → Command → ℕ → Outcome (Unit {0})
  pub is_merged : String → ℕ → ℕ → Outcome Bool
  pub pr_checks : String → ℕ → ℕ → Outcome (Option (List (Option Check)))
  pub update_pr_validation : Job → ℕ → Outcome (Unit {0})
  pub review_context : String → ℕ → ℕ → Outcome String
  pub recent_issue_comments : String → ℕ → ℕ → Outcome (List String)
  pub guard_code_mutation : Job → (allow_existing_branch : Bool) → ℕ → Outcome (Unit {0})
  pub create_draft_pr : Job → (title summary : String) → ℕ → Outcome PullRequest
  pub post_review : String → ℕ → (body event : String) → ℕ → Outcome (Unit {0})
  pub list_ready_issues : String → ℕ → Outcome (List IssueSnapshot)
  pub list_control_commands : String → ℕ → Outcome (List ((ℕ × ℕ) × Command))
  pub post_agent_result_comment :
      Job → (outcome summary question conversation_id : String) → ℕ → Outcome (Unit {0})

-- What the review context of a pull request says on checks: `none` if it holds no list, and in the
-- list `none` for an entry that is no object.
abbrev pub Rollup : Type 0
Rollup = Option (List (Option Check))

-- `redact` bounds and cleans a text, `failure_text` prints an exception with its type,
-- `message_text` without it,
-- `owner` is the owner of the operation locks, `new_id` a fresh uuid, `random` a
-- random number up to a bound, `display` and `quoted` are the formats `{x}` and `{x!r}`, `payload_hash` hashes a
-- command comment, `mentions` is the test `text in whole`, `snapshot_of` decodes the stored issue, `before` is the text before a marker, `digits` and `encode` go between numbers, code points and texts.
pub record Host : Type 0 where
  pub config : Config
  pub github : GitHub
  pub providers : List Provider
  pub workspaces : Workspaces
  pub hashing : Hashing
  pub search_in : EventSearch
  pub clock : ℕ → Timestamp
  pub owner : String
  pub new_id : ℕ → String
  pub random : (bound tick : ℕ) → ℕ
  pub lower : String → String
  pub before : (marker text : String) → String
  pub join : String → String → String
  pub append : String → String → String
  pub redact : String → ℕ → String
  pub failure_text : Failure → String
  pub message_text : Failure → String
  pub payload_hash : String → ℕ → ℕ → Command → String
  pub display : Option String → String
  pub quoted : Option String → String
  pub unicode : Unicode
  pub digits : ℕ → List ℕ
  pub encode : List ℕ → String
  pub mentions : (text whole : String) → Bool
  pub snapshot_of : Job → IssueSnapshot
  pub review_body : (summary provider run_id recommendation : String) → String
  pub join_comments : List String → String
  pub review_run_id : (job_id : String) → (repairs : ℕ) → String
  pub repair_run_id : (job_id : String) → (repairs : ℕ) → String
  -- how often a turn asks in vain for the semaphore of the provider before it gets it
  pub slot_waits : String → ℕ → ℕ
  pub write_report : Job → ℕ → Outcome (Unit {0})
  -- the in-memory map of the runs that this process waits for
  pub active_run : String → ℕ → Option (Provider × ProviderRun)
