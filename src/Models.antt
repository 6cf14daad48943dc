-- ===== src/Models.antt =====
-- src/symphony/models.py: the states of a job, the issue snapshot, the rows of the jobs table and
-- the values that a provider returns. Times are numbers: `utcnow` yields ISO texts of one format,
-- which SQLite compares as texts, and whose order is that of the instants.
use openhands_symphony.Base.{ℕ, String, Bool, true, false, not, ◌&&◌, Option, some, List}

abbrev pub Timestamp : Type 0
Timestamp = ℕ

pub data JobState : Type 0 where
  queued running needs_guidance pr_open reviewing blocked failed canceled done : JobState

-- the text of a `StrEnum` member
unfoldable pub state_value : JobState → String
state_value JobState.queued = "queued"
state_value JobState.running = "running"
state_value JobState.needs_guidance = "needs-guidance"
state_value JobState.pr_open = "pr-open"
state_value JobState.reviewing = "reviewing"
state_value JobState.blocked = "blocked"
state_value JobState.failed = "failed"
state_value JobState.canceled = "canceled"
state_value JobState.done = "done"

-- `==` of two members
unfoldable pub state_eq : JobState → JobState → Bool
state_eq JobState.queued JobState.queued = true
state_eq JobState.running JobState.running = true
state_eq JobState.needs_guidance JobState.needs_guidance = true
state_eq JobState.pr_open JobState.pr_open = true
state_eq JobState.reviewing JobState.reviewing = true
state_eq JobState.blocked JobState.blocked = true
state_eq JobState.failed JobState.failed = true
state_eq JobState.canceled JobState.canceled = true
state_eq JobState.done JobState.done = true
state_eq _ _ = false

-- membership in TERMINAL_STATES
unfoldable pub is_terminal : JobState → Bool
is_terminal JobState.blocked = true
is_terminal JobState.failed = true
is_terminal JobState.canceled = true
is_terminal JobState.done = true
is_terminal _ = false

-- membership in ACTIVE_STATES
unfoldable pub is_active : JobState → Bool
is_active JobState.running = true
is_active JobState.reviewing = true
is_active _ = false

pub record IssueSnapshot : Type 0 where
  pub repository : String
  pub number : ℕ
  pub title : String
  pub body : String
  pub state : String
  pub labels : List String
  pub updated_at : String
  pub private : Bool
  pub default_branch : String

-- `hashlib.sha256(...).hexdigest()` and `json.dumps`, which the standard library implements:
-- the encodings of the whole snapshot (compact and default separators) and of the specification.
pub record Hashing : Type 0 where
  pub sha256 : String → String
  pub dumps_compact : IssueSnapshot → String
  pub dumps : IssueSnapshot → String
  pub dumps_specification : (repository : String) (number : ℕ) (title body : String) → String

unfoldable pub content_hash : Hashing → IssueSnapshot → String
content_hash h s = h.sha256 (h.dumps_specification s.repository s.number s.title s.body)

unfoldable pub revision_hash : Hashing → IssueSnapshot → String
revision_hash h s = h.sha256 (h.dumps_compact s)

unfoldable pub to_json : Hashing → IssueSnapshot → String
to_json h s = h.dumps s

-- The exit code of a process: `exited n`, or a negative one, `signaled n` for the signal n + 1.
pub data ExitCode : Type 0 where
  exited : ℕ → ExitCode
  signaled : ℕ → ExitCode

pub record ValidationResult : Type 0 where
  pub command : List String
  pub exit_code : Option ExitCode
  pub started_at : Timestamp
  pub finished_at : Timestamp
  pub output : String
  pub timed_out : Bool

abbrev is_zero : Option ExitCode → Bool
is_zero (some (exited ℕ.zero)) = true
is_zero _ = false

-- the property `ValidationResult.ok`
unfoldable pub validation_ok : ValidationResult → Bool
validation_ok r = is_zero r.exit_code && not r.timed_out

pub record Job : Type 0 where
  pub id : String
  pub repository : String
  pub issue_number : ℕ
  pub snapshot_hash : String
  pub content_hash : String
  pub snapshot_json : String
  pub implementation_provider : String
  pub review_provider : Option String
  pub review_required : Bool
  pub state : JobState
  pub attempt : ℕ
  pub branch : String
  pub worktree : Option String
  pub concurrency_key : String
  pub conversation_id : Option String
  pub session_id : Option String
  pub review_conversation_id : Option String
  pub review_session_id : Option String
  pub status_comment_id : Option ℕ
  pub pr_number : Option ℕ
  pub pr_url : Option String
  pub phase : String
  pub validation_summary : String
  pub actionable_message : String
  pub terminal_outcome : Option String
  pub terminal_reason : Option String
  pub lease_owner : Option String
  pub lease_expires_at : Option Timestamp
  pub created_at : Timestamp
  pub updated_at : Timestamp
  pub started_at : Option Timestamp
  pub heartbeat_at : Option Timestamp
  pub finished_at : Option Timestamp
  pub retry_requested : Bool
  pub cancel_requested : Bool
  pub pause_requested : Bool
