-- ===== src/Store/Samples.antt =====
-- Concrete rows for the tests of the models of src/symphony/store.py.
use openhands_symphony.Base.{ℕ, String, false, none, some, List, [], ◌∷◌, ◌==◌, string_eq}
use openhands_symphony.Models.{JobState, IssueSnapshot, Hashing, Job}
use openhands_symphony.Store.Schema.{
  Detail, control_detail, attempt_detail, Db, empty_db, Result, ok, err,
}
use openhands_symphony.Store.Jobs.{Routing}
use openhands_symphony.Store.Control.{EventSearch}

abbrev pub hashing : Hashing
hashing = record {
  sha256 = λ text. text;
  dumps_compact = λ s. s.title;
  dumps = λ s. s.body;
  dumps_specification = λ repository number title body. title;
}

abbrev json : Detail → String
json (control_detail command reset) = command
json (attempt_detail attempt conversation session) = "attempt"
json _ = "{}"

abbrev pub search : EventSearch
search = record { detail_json = json; like = λ text whole. text == whole }

abbrev pub snapshot : IssueSnapshot
snapshot = record {
  repository = "octo/app";
  number = 7;
  title = "Fix the parser";
  body = "It fails on empty input.";
  state = "open";
  labels = "agent:ready" ∷ "agent:codex" ∷ [];
  updated_at = "2026-01-01T00:00:00Z";
  private = false;
  default_branch = "main";
}

abbrev pub routing : Routing
routing = record {
  implementation_provider = "codex";
  review_provider = none;
  review_required = false;
  branch = "agent/7-fix-the-parser";
  concurrency_key = "octo/app";
}

abbrev pub queued_job : Job
queued_job = record {
  id = "job-1";
  repository = "octo/app";
  issue_number = 7;
  snapshot_hash = "Fix the parser";
  content_hash = "Fix the parser";
  snapshot_json = "It fails on empty input.";
  implementation_provider = "codex";
  review_provider = none;
  review_required = false;
  state = JobState.queued;
  attempt = 0;
  branch = "agent/7-fix-the-parser";
  worktree = none;
  concurrency_key = "octo/app";
  conversation_id = none;
  session_id = none;
  review_conversation_id = none;
  review_session_id = none;
  status_comment_id = none;
  pr_number = none;
  pr_url = none;
  phase = "intake";
  validation_summary = "";
  actionable_message = "";
  terminal_outcome = none;
  terminal_reason = none;
  lease_owner = none;
  lease_expires_at = none;
  created_at = 5;
  updated_at = 5;
  started_at = none;
  heartbeat_at = none;
  finished_at = none;
  retry_requested = false;
  cancel_requested = false;
  pause_requested = false;
}

abbrev pub done_job : Job
done_job = record queued_job { state = JobState.done; finished_at = some 8 }

abbrev pub queued_db : Db
queued_db = record empty_db { jobs = queued_job ∷ [] }

abbrev pub done_db : Db
done_db = record empty_db { jobs = done_job ∷ [] }

abbrev pub limits : List (String × ℕ)
limits = ("codex", 2) ∷ []

-- The database of a call that returned; one that raised left the old one.
abbrev pub db_after {ℓ} : {A : Type ℓ} → Db → Result (A × Db) → Db
db_after db (ok (a, db')) = db'
db_after db (err e) = db
