-- ===== src/Store/Lease.antt =====
-- Expiry, recovery and renewal of leases (src/symphony/store.py).
pub mod Reap
pub mod Fencing
use openhands_symphony.Base.{
  ℕ, ◌+◌, String, Bool, true, false, Option, none, some, List, [], ◌∷◌, ◌&&◌, ◌||◌, ◌==◌, string_eq,
  ltb, leb, if◌then◌else◌, find, any, update_where, delete_where, order_by,
}
use openhands_symphony.Models.{Timestamp, JobState, state_value, state_eq, Job}
use openhands_symphony.Store.Schema.{Lease, empty_detail, Db, has_id, holds}
use openhands_symphony.Store.Log.{log_event}
use openhands_symphony.Store.Jobs.{created_before}

-- The lease of a worker on a job, live or not.
abbrev pub is_held_by : (job_id owner : String) → Lease → Bool
is_held_by job_id owner l = l.job_id == job_id && l.owner == owner

-- `expires_at<=?`
abbrev pub is_expired : Timestamp → Lease → Bool
is_expired now l = leb l.expires_at now

-- `leases l JOIN jobs j ON j.id=l.job_id` on the leases that pass the test: the jobs, which are
-- unique by their primary key.
unfoldable pub join_jobs : (Lease → Bool) → List Lease → List Job → List Job
join_jobs p [] jobs = []
join_jobs p (l ∷ ls) jobs =
    let rest = join_jobs p ls jobs in
    if p l then elim (find (has_id l.job_id) jobs) [ none ↦ rest | some j ↦ j ∷ rest ] else rest

unfoldable pub expired_lease_jobs : Timestamp → Db → List Job
unfolding join_jobs
expired_lease_jobs now db = order_by created_before (join_jobs (is_expired now) db.leases db.jobs)

abbrev pub mem_text : String → List String → Bool
mem_text k [] = false
mem_text k (x ∷ xs) = x == k || mem_text k xs

-- `job_ids` restricts the leases; `none` is no restriction.
unfoldable pub is_reapable : Timestamp → Option (List String) → Lease → Bool
is_reapable now none l = is_expired now l
is_reapable now (some ids) l = is_expired now l && mem_text l.job_id ids

-- The assignments for one recovered row, by the flags and the state that the query read.
unfoldable pub recover : Timestamp → Job → Job → Job
recover now row j =
    if row.cancel_requested
    then record j {
      state = JobState.canceled;
      phase = "canceled";
      lease_owner = none;
      lease_expires_at = none;
      updated_at = now;
      actionable_message = "Canceled by operator while the previous worker lease was active.";
      terminal_outcome = some (state_value JobState.canceled);
      terminal_reason = some "Canceled by operator while the previous worker lease was active.";
      finished_at = some now;
    }
    else if row.pause_requested
    then record j {
      state = JobState.needs_guidance;
      phase = "paused";
      lease_owner = none;
      lease_expires_at = none;
      updated_at = now;
      actionable_message = "Paused by operator; use /agent resume to requeue.";
      terminal_outcome = none;
      terminal_reason = none;
      finished_at = none;
    }
    else record j {
      state = if state_eq row.state JobState.reviewing then JobState.pr_open else JobState.queued;
      phase = "recovered-expired-lease";
      lease_owner = none;
      lease_expires_at = none;
      updated_at = now;
      actionable_message =
          "Previous worker lease expired; reconciliation will safely resume or retry.";
      terminal_outcome = none;
      terminal_reason = none;
      finished_at = none;
    }

-- One round of the loop over the rows.
unfoldable pub reap_one : Timestamp → Job → Db → Db
unfolding recover log_event
reap_one now row db = log_event row.id now "lease-expired" empty_detail (record db {
  jobs = update_where (has_id row.id) (recover now row) db.jobs;
  leases = delete_where (holds row.id) db.leases;
})

unfoldable pub reap_rows : Timestamp → List Job → Db → List String × Db
reap_rows now [] db = ([], db)
reap_rows now (row ∷ rows) db =
    let (recovered, db') = reap_rows now rows (reap_one now row db) in (row.id ∷ recovered, db')

-- An empty set of ids returns before the query, which would select nothing.
unfoldable pub reap_expired_leases : Timestamp → Option (List String) → Db → List String × Db
unfolding reap_rows is_reapable join_jobs
reap_expired_leases now (some []) db = ([], db)
reap_expired_leases now (some (k ∷ ids)) db =
    reap_rows now (join_jobs (is_reapable now (some (k ∷ ids))) db.leases db.jobs) db
reap_expired_leases now none db =
    reap_rows now (join_jobs (is_reapable now none) db.leases db.jobs) db

-- `WHERE job_id=? AND owner=? AND expires_at>?`
abbrev pub is_renewable : String → String → Timestamp → Lease → Bool
is_renewable job_id owner now l = l.job_id == job_id && l.owner == owner && ltb now l.expires_at

unfoldable pub extend : Timestamp → ℕ → Lease → Lease
extend now seconds l = record l { expires_at = now + seconds; heartbeat_at = now }

unfoldable pub touch : Timestamp → ℕ → Job → Job
touch now seconds j = record j {
  lease_expires_at = some (now + seconds);
  heartbeat_at = some now;
  updated_at = now;
}

-- One row at most is renewable, since `job_id` is unique, so `rowcount == 1` is "some row".
unfoldable pub renew_lease : String → String → ℕ → Timestamp → Db → Bool × Db
unfolding extend touch
renew_lease job_id owner seconds now db =
    if any (is_renewable job_id owner now) db.leases
    then (
      true,
      record db {
        leases = update_where (is_renewable job_id owner now) (extend now seconds) db.leases;
        jobs = update_where (has_id job_id) (touch now seconds) db.jobs;
      },
    )
    else (false, db)
