-- ===== src/Store/Jobs.antt =====
-- Reading, creating and rewriting rows of the jobs table (src/symphony/store.py).
pub mod Ensure
use openhands_symphony.Base.{
  ℕ, suc, String, Bool, true, false, Option, none, some, List, [], ◌∷◌, ◌&&◌, ◌||◌, ◌==◌, string_eq,
  nat_eq, ltb, if◌then◌else◌, find, any, select, update_where, insert_row, order_by,
}
use openhands_symphony.Models.{
  Timestamp, JobState, state_eq, IssueSnapshot, Hashing, content_hash, revision_hash, to_json, Job,
}
use openhands_symphony.Store.Schema.{
  created_detail, accepted_detail, attempt_detail, Db, unknown_job, unsupported_fields, not_running,
  not_requeued, integrity_error, Result, ok, err, has_id, has_issue,
}
use openhands_symphony.Store.Log.{log_event}

unfoldable pub get_job : String → ℕ → Db → Option Job
get_job repository issue_number db = find (has_issue repository issue_number) db.jobs

unfoldable pub get_job_by_id : String → Db → Option Job
get_job_by_id job_id db = find (has_id job_id) db.jobs

abbrev pub created_before : Job → Job → Bool
created_before a b = ltb a.created_at b.created_at

-- `state in states`
unfoldable pub state_in : List JobState → JobState → Bool
state_in [] s = false
state_in (x ∷ xs) s = state_eq x s || state_in xs s

-- The argument `none` and an empty set both select every job.
unfoldable pub list_jobs : Option (List JobState) → Db → List Job
unfolding state_in
list_jobs none db = order_by created_before db.jobs
list_jobs (some []) db = order_by created_before db.jobs
list_jobs (some (s ∷ states)) db =
    order_by created_before (select (λ j. state_in (s ∷ states) j.state) db.jobs)

-- The routing of a snapshot, as intake hands it to the store.
pub record Routing : Type 0 where
  pub implementation_provider : String
  pub review_provider : Option String
  pub review_required : Bool
  pub branch : String
  pub concurrency_key : String

-- `WHERE repository=? AND issue_number=? AND state=? AND attempt=0`
unfoldable pub is_unclaimed : IssueSnapshot → Job → Bool
is_unclaimed snapshot j =
    has_issue snapshot.repository snapshot.number j
    && state_eq j.state JobState.queued
    && j.attempt == 0

module _ (h : Hashing) where
  -- The row that `ensure_job` inserts, with the defaults of the table.
  unfoldable pub new_job : String → IssueSnapshot → Routing → Timestamp → Job
  new_job job_id snapshot routing now = record {
    id = job_id;
    repository = snapshot.repository;
    issue_number = snapshot.number;
    snapshot_hash = revision_hash h snapshot;
    content_hash = content_hash h snapshot;
    snapshot_json = to_json h snapshot;
    implementation_provider = routing.implementation_provider;
    review_provider = routing.review_provider;
    review_required = routing.review_required;
    state = JobState.queued;
    attempt = 0;
    branch = routing.branch;
    worktree = none;
    concurrency_key = routing.concurrency_key;
    conversation_id = none;
    session_id = none;
    review_conversation_id = none;
    review_session_id = none;
    status_comment_id = none;
    pr_number = none;
    pr_url = none;
    phase = "intake";
    validation_summary = "";
    actionable_message = "";
    terminal_outcome = none;
    terminal_reason = none;
    lease_owner = none;
    lease_expires_at = none;
    created_at = now;
    updated_at = now;
    started_at = none;
    heartbeat_at = none;
    finished_at = none;
    retry_requested = false;
    cancel_requested = false;
    pause_requested = false;
  }

  -- `job_id` is the fresh `uuid4`; a collision breaks the primary key.
  unfoldable pub ensure_job :
      String → IssueSnapshot → Routing → Timestamp → Db → Result ((Job × Bool) × Db)
  unfolding new_job log_event
  ensure_job job_id snapshot routing now db =
      elim (find (has_issue snapshot.repository snapshot.number) db.jobs) [
        | some existing ↦ ok ((existing, false), db)
        | none ↦
            let job = new_job job_id snapshot routing now in
            if any (has_id job_id) db.jobs
            then err integrity_error
            else ok (
              (job, true),
              log_event job_id now "created" (created_detail (revision_hash h snapshot))
                  (record db { jobs = insert_row job db.jobs }),
            )
      ]

  unfoldable pub refresh : IssueSnapshot → Routing → Timestamp → Job → Job
  refresh snapshot routing now j = record j {
    snapshot_hash = revision_hash h snapshot;
    content_hash = content_hash h snapshot;
    snapshot_json = to_json h snapshot;
    implementation_provider = routing.implementation_provider;
    review_provider = routing.review_provider;
    review_required = routing.review_required;
    branch = routing.branch;
    concurrency_key = routing.concurrency_key;
    updated_at = now;
  }

  unfoldable pub update_snapshot_if_unclaimed : IssueSnapshot → Routing → Timestamp → Db → Bool × Db
  unfolding is_unclaimed refresh
  update_snapshot_if_unclaimed snapshot routing now db = (
    any (is_unclaimed snapshot) db.jobs,
    record db {
      jobs = update_where (is_unclaimed snapshot) (refresh snapshot routing now) db.jobs;
    },
  )

  unfoldable pub accept : IssueSnapshot → Timestamp → Job → Job
  accept snapshot now j = record j {
    snapshot_hash = revision_hash h snapshot;
    content_hash = content_hash h snapshot;
    snapshot_json = to_json h snapshot;
    updated_at = now;
  }

  -- Two calls of `utcnow`: one for the row, one for the event.
  unfoldable pub accept_snapshot :
      String → IssueSnapshot → (now later : Timestamp) → Db → Result (Job × Db)
  unfolding accept log_event
  accept_snapshot job_id snapshot now later db = elim (find (has_id job_id) db.jobs) [
    | none ↦ err (unknown_job job_id)
    | some row ↦
        if state_eq row.state JobState.queued
        then ok (
          accept snapshot now row,
          log_event job_id later "snapshot-accepted" (accepted_detail (revision_hash h snapshot))
              (record db { jobs = update_where (has_id job_id) (accept snapshot now) db.jobs }),
        )
        else err not_requeued
  ]

-- `COALESCE(?, column)`
abbrev pub coalesce {ℓ} : {A : Type ℓ} → Option A → Option A → Option A
coalesce none old = old
coalesce (some a) old = some a

unfoldable pub start_attempt : Option String → Option String → Timestamp → Job → Job
start_attempt conversation_id session_id now j = record j {
  attempt = suc j.attempt;
  conversation_id = coalesce conversation_id j.conversation_id;
  session_id = coalesce session_id j.session_id;
  phase = "implementation";
  retry_requested = false;
  updated_at = now;
}

unfoldable pub begin_attempt :
    String → Option String → Option String → Timestamp → Db → Result (Job × Db)
unfolding start_attempt log_event
begin_attempt job_id conversation_id session_id now db = elim (find (has_id job_id) db.jobs) [
  | none ↦ err (unknown_job job_id)
  | some row ↦
      if state_eq row.state JobState.running
      then ok (
        start_attempt conversation_id session_id now row,
        log_event job_id now "attempt-started"
            (attempt_detail (suc row.attempt) conversation_id session_id)
            (record db {
              jobs =
                  update_where (has_id job_id) (start_attempt conversation_id session_id now)
                    db.jobs;
            }),
      )
      else err not_running
]

-- The keyword arguments of `update_job`: the columns that it allows, and any other name.
pub data Assignment : Type 0 where
  set_worktree set_conversation_id set_session_id set_pr_url set_review_provider :
      Option String → Assignment
  set_review_conversation_id set_review_session_id : Option String → Assignment
  set_status_comment_id set_pr_number : Option ℕ → Assignment
  set_phase set_validation_summary set_actionable_message set_snapshot_hash : String → Assignment
  set_content_hash set_snapshot_json set_implementation_provider set_concurrency_key :
      String → Assignment
  set_review_required set_retry_requested : Bool → Assignment
  set_other : String → Assignment

unfoldable pub assign : Assignment → Job → Job
assign (set_worktree v) j = record j { worktree = v }
assign (set_conversation_id v) j = record j { conversation_id = v }
assign (set_session_id v) j = record j { session_id = v }
assign (set_pr_url v) j = record j { pr_url = v }
assign (set_review_provider v) j = record j { review_provider = v }
assign (set_review_conversation_id v) j = record j { review_conversation_id = v }
assign (set_review_session_id v) j = record j { review_session_id = v }
assign (set_status_comment_id v) j = record j { status_comment_id = v }
assign (set_pr_number v) j = record j { pr_number = v }
assign (set_phase v) j = record j { phase = v }
assign (set_validation_summary v) j = record j { validation_summary = v }
assign (set_actionable_message v) j = record j { actionable_message = v }
assign (set_snapshot_hash v) j = record j { snapshot_hash = v }
assign (set_content_hash v) j = record j { content_hash = v }
assign (set_snapshot_json v) j = record j { snapshot_json = v }
assign (set_implementation_provider v) j = record j { implementation_provider = v }
assign (set_concurrency_key v) j = record j { concurrency_key = v }
assign (set_review_required v) j = record j { review_required = v }
assign (set_retry_requested v) j = record j { retry_requested = v }
assign (set_other name) j = j

unfoldable pub assign_all : List Assignment → Job → Job
unfolding assign
assign_all [] j = j
assign_all (a ∷ rest) j = assign_all rest (assign a j)

-- `set(values) - allowed`
unfoldable pub unsupported : List Assignment → List String
unsupported [] = []
unsupported (set_other name ∷ rest) = name ∷ unsupported rest
unsupported (_ ∷ rest) = unsupported rest

unfoldable pub write_fields : List Assignment → Timestamp → Job → Job
unfolding assign_all
write_fields values now j = record (assign_all values j) { updated_at = now }

-- The update comes before the look-up: an unknown id changes no row, and then raises.
unfoldable pub update_job : String → List Assignment → Timestamp → Db → Result (Job × Db)
unfolding write_fields unsupported
update_job job_id values now db = elim (unsupported values) [
  | name ∷ names ↦ err (unsupported_fields (name ∷ names))
  | [] ↦
      let jobs = update_where (has_id job_id) (write_fields values now) db.jobs in
      elim (find (has_id job_id) jobs) [
        | none ↦ err (unknown_job job_id)
        | some row ↦ ok (row, record db { jobs = jobs })
      ]
]
