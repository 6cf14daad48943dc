-- ===== src/Coordinator/Samples.antt =====
-- A concrete host for the tests of the coordinator's models (src/symphony/coordinator.py).
use openhands_symphony.Base.{String, ◌+◌, true, false, none, some, [], ◌∷◌, ◌==◌, nat_eq, string_eq}
use openhands_symphony.Models.{exited, Job, JobState}
use openhands_symphony.Store.Samples.{hashing, search, snapshot, queued_job, queued_db}
use openhands_symphony.Config.{Config}
use openhands_symphony.Coordinator.Exec.{ProviderRun, Frame, returned, World}
use openhands_symphony.Coordinator.Agent.{ProviderOutcome, ProviderResult, Provider, Workspaces}
use openhands_symphony.Coordinator.Host.{GitHub, Host}

abbrev config : Config
config = record {
  allowed_repositories = "octo/app" ∷ [];
  private_only = false;
  provider_concurrency = ("codex", 2) ∷ [];
  global_concurrency = 2;
  lease_seconds = 900;
  reconcile_seconds = 300;
  max_attempts = 3;
  max_implementation_corrections = 1;
  max_review_repairs = 1;
  provider_backoff_base_seconds = 60;
  provider_backoff_max_seconds = 900;
  repositories = [];
}

-- It answers every question; the status comment is number 1.
abbrev github : GitHub
github = record {
  get_issue = λ repository number tick. returned snapshot;
  find_open_pr = λ repository branch tick. returned none;
  remote_branch_exists = λ repository branch tick. returned false;
  set_state_labels = λ job tick. returned tt;
  update_status_comment = λ job tick. returned 1;
  set_control_state = λ repository number command tick. returned tt;
  is_merged = λ repository number tick. returned true;
  pr_checks = λ repository number tick. returned none;
  update_pr_validation = λ job tick. returned tt;
  review_context = λ repository number tick. returned "{}";
  recent_issue_comments = λ repository number tick. returned [];
  guard_code_mutation = λ job allow tick. returned tt;
  create_draft_pr =
      λ job title summary tick. returned (record { number = 12; url = "https://example.org/12" });
  post_review = λ repository number body event tick. returned tt;
  list_ready_issues = λ repository tick. returned (snapshot ∷ []);
  list_control_commands = λ repository tick. returned [];
  post_agent_result_comment = λ job outcome summary question conversation tick. returned tt;
}

abbrev started : ProviderRun
started = record { provider = "codex"; conversation_id = "conversation-1"; session_id = none }

abbrev pub finished : ProviderResult
finished = record {
  outcome = ProviderOutcome.completed;
  summary = "done";
  question_or_reason = "";
  conversation_id = none;
  session_id = none;
  failure_kind = none;
  review_event = some "approve";
  substantive_findings = some 0;
}

abbrev codex : Provider
codex = record {
  name = "codex";
  autonomous_available = true;
  supports_review = true;
  limitation = "";
  auth_status = λ tick. returned (record { available = true; authenticated = true; detail = "" });
  supports_resume = true;
  health = λ tick. returned (true, "healthy");
  quota_or_rate_limit_state = λ tick.
      returned (record { limited = false; retry_after_seconds = none; detail = "available" });
  start = λ worktree prompt id read_only tick. returned started;
  resume_run = λ run prompt tick. returned run;
  wait = λ run tick. returned finished;
  cancel = λ run tick. returned tt;
}

abbrev workspaces : Workspaces
workspaces = record {
  checkout = λ job issue tick. returned "runs/job-1";
  prepare_for_agent = λ worktree tick. returned tt;
  verify_integrity = λ job worktree tick. returned tt;
  run_setup = λ worktree repository tick. returned none;
  run_validation = λ command worktree tick. returned (record {
    command = command;
    exit_code = some (exited 0);
    started_at = 1;
    finished_at = 2;
    output = "";
    timed_out = false;
  });
  has_quality_gate = λ worktree tick. returned true;
  changed_paths = λ worktree branch tick. returned ("parser.py" ∷ []);
  has_changes = λ worktree tick. returned true;
  commit_changes = λ worktree number tick. returned tt;
  commits_ahead = λ worktree branch tick. returned 1;
  remote_matches = λ worktree repository branch tick. returned false;
  push = λ worktree repository branch tick. returned tt;
}

abbrev pub host : Host
host = record {
  config = config;
  github = github;
  providers = codex ∷ [];
  workspaces = workspaces;
  hashing = hashing;
  search_in = search;
  clock = λ tick. 100 + tick;
  owner = "coordinator:1";
  new_id = λ tick. "job-9";
  random = λ bound tick. 0;
  lower = λ text. text;
  before = λ marker text. text;
  join = λ a b. b;
  append = λ a b. b;
  redact = λ text limit. text;
  failure_text = λ f. "error";
  message_text = λ f. "error";
  payload_hash = λ repository number comment command. "hash";
  display = λ text. "None";
  quoted = λ text. "None";
  unicode = record { is_space = λ c. c == 32; nfkd = λ cs. cs };
  digits = λ n. (48 + n) ∷ [];
  encode = λ cs. "text";
  mentions = λ text whole. text == whole;
  snapshot_of = λ job. snapshot;
  review_body = λ summary provider id recommendation. summary;
  join_comments = λ comments. "";
  review_run_id = λ id repairs. id;
  repair_run_id = λ id repairs. id;
  slot_waits = λ name tick. 0;
  write_report = λ job tick. returned tt;
  active_run = λ id tick. none;
}

abbrev pub running_job : Job
running_job = record queued_job { state = JobState.running; attempt = 1 }

abbrev frame : Frame
frame = record { job = running_job; provider_turn_started = false }

abbrev pub queued_world : World
queued_world = record { db = queued_db; tick = 0; sent = []; frame = frame }

abbrev pub running_world : World
running_world = record {
  db = record queued_db { jobs = running_job ∷ [] };
  tick = 0;
  sent = [];
  frame = frame;
}

-- Its draft pull request is open, and codex is asked to review it.
abbrev pub reviewing_job : Job
reviewing_job = record running_job {
  state = JobState.pr_open;
  pr_number = some 12;
  review_required = true;
  review_provider = some "codex";
  implementation_provider = "codex";
  lease_owner = some "coordinator:2";
  lease_expires_at = some 900;
  heartbeat_at = some 1;
}

-- The row of the job while a worker holds it.
abbrev pub claimed_by : String → Job
claimed_by worker = record running_job {
  pr_number = some 12;
  lease_owner = some worker;
  lease_expires_at = some 900;
  heartbeat_at = some 1;
}

-- Another worker has claimed the job since the row for "coordinator:1" was read.
abbrev pub taken_over : World
taken_over = record {
  db = record queued_db {
    jobs = claimed_by "coordinator:2" ∷ [];
    leases =
        (record {
          job_id = running_job.id;
          owner = "coordinator:2";
          concurrency_key = running_job.concurrency_key;
          expires_at = 900;
          heartbeat_at = 1;
        })
        ∷ [];
  };
  tick = 0;
  sent = [];
  frame = record { job = claimed_by "coordinator:1"; provider_turn_started = true };
}

-- The pull request of the job is open under the lease of the worker, and codex is to review it.
abbrev pub under_review : World
under_review = record taken_over {
  db = record taken_over.db { jobs = reviewing_job ∷ [] };
  frame = record { job = reviewing_job; provider_turn_started = true };
}
