-- ===== src/Store/Control.antt =====
-- `Store.request_control` of src/symphony/store.py: the operator's pause, cancel, resume and retry.
pub mod Legal
use openhands_symphony.Base.{
  ℕ, String, Bool, true, false, not, Option, none, some, ◌&&◌, ◌||◌, ◌==◌, string_eq, ltb,
  if◌then◌else◌, find, any, update_where, delete_where,
}
use openhands_symphony.Models.{Timestamp, JobState, state_value, state_eq, is_active, Job}
use openhands_symphony.Store.Schema.{
  Detail, control_detail, JobEvent, Db, unknown_command, Result, ok, err, has_id, has_issue, holds,
}
use openhands_symphony.Store.Log.{log_event}

-- `json.dumps` of a detail, and SQLite's LIKE with `%` on both sides of a text.
pub record EventSearch : Type 0 where
  pub detail_json : Detail → String
  pub like : (text : String) → String → Bool

-- The four commands; `other_command` is any other text.
pub data Command : Type 0 where
  cancel pause resume retry : Command
  other_command : String → Command

unfoldable pub command_text : Command → String
command_text cancel = "cancel"
command_text pause = "pause"
command_text resume = "resume"
command_text retry = "retry"
command_text (other_command text) = text

unfoldable pub is_known : Command → Bool
is_known (other_command _) = false
is_known _ = true

abbrev pub is_some {ℓ} : {A : Type ℓ} → Option A → Bool
is_some none = false
is_some (some _) = true

unfoldable pub flag_cancel : Timestamp → Job → Job
flag_cancel now j = record j { cancel_requested = true; updated_at = now }

unfoldable pub cancel_now : Timestamp → Job → Job
cancel_now now j = record j {
  state = JobState.canceled;
  phase = "canceled";
  terminal_outcome = some (state_value JobState.canceled);
  terminal_reason = some "Canceled by operator.";
  finished_at = some now;
  lease_owner = none;
  lease_expires_at = none;
}

unfoldable pub flag_pause : Timestamp → Job → Job
flag_pause now j = record j {
  pause_requested = true;
  actionable_message = "Paused by /agent pause; use /agent resume to requeue.";
  updated_at = now;
}

unfoldable pub pause_now : Job → Job
pause_now j = record j {
  state = JobState.needs_guidance;
  phase = "paused";
  lease_owner = none;
  lease_expires_at = none;
}

unfoldable pub requeue : Bool → Timestamp → Job → Job
requeue reset now j = record j {
  state = JobState.queued;
  phase = "explicit-requeue";
  retry_requested = true;
  cancel_requested = false;
  pause_requested = false;
  actionable_message = "";
  terminal_outcome = none;
  terminal_reason = none;
  finished_at = none;
  attempt = if reset then 0 else j.attempt;
  updated_at = now;
}

-- The states from which `resume` and `retry` requeue, whatever the history.
unfoldable pub is_requeueable : JobState → Bool
is_requeueable JobState.needs_guidance = true
is_requeueable JobState.blocked = true
is_requeueable JobState.failed = true
is_requeueable JobState.canceled = true
is_requeueable JobState.pr_open = true
is_requeueable _ = false

-- What the command does to the row of a job that was read in this state.
unfoldable pub control_row : Command → JobState → Bool → Timestamp → Job → Job
unfolding flag_cancel cancel_now flag_pause pause_now requeue is_requeueable
control_row cancel state reset now j =
    if is_active state then flag_cancel now j else cancel_now now (flag_cancel now j)
control_row pause state reset now j =
    if state_eq state JobState.queued then pause_now (flag_pause now j) else flag_pause now j
control_row resume state reset now j =
    if is_requeueable state || (state_eq state JobState.queued && reset)
    then requeue reset now j
    else j
control_row retry state reset now j =
    if is_requeueable state || (state_eq state JobState.queued && reset)
    then requeue reset now j
    else j
control_row (other_command _) state reset now j = j

-- Whether the command deletes the lease of the job.
unfoldable pub drops_lease : Command → JobState → Bool
drops_lease cancel s = not (is_active s)
drops_lease pause s = state_eq s JobState.queued
drops_lease _ s = false

module _ (search_in : EventSearch) where
  abbrev is_event : String → String → JobEvent → Bool
  is_event job_id kind e = e.job_id == job_id && e.kind == kind

  abbrev mentions : String → JobEvent → Bool
  mentions text e = search_in.like text (search_in.detail_json e.detail)

  -- `reset_pre_provider_attempts`
  unfoldable pub resets_attempts : Job → Db → Bool
  resets_attempts row db =
      let has_attempt_events = any (is_event row.id "attempt-started") db.job_events in
      let has_legacy_setup_failure =
        any (λ e. is_event row.id "transition" e && mentions "setup-failed" e) db.job_events in
      let has_preconversation_provider_failure =
        any
          (λ e.
            is_event row.id "transition" e
            && (mentions "provider-tool-retry" e || mentions "provider-tool-failure" e))
          db.job_events in
      not (is_some row.conversation_id)
      && not (is_some row.pr_number)
      && ltb 0 row.attempt
      && ((not has_attempt_events && has_legacy_setup_failure)
          || has_preconversation_provider_failure)

  unfoldable pub resets : Command → Job → Db → Bool
  unfolding resets_attempts
  resets resume row db = resets_attempts row db
  resets retry row db = resets_attempts row db
  resets _ row db = false

  unfoldable pub write_control : Command → Job → Timestamp → Db → Db
  unfolding control_row drops_lease resets log_event
  write_control command row now db =
      let reset = resets command row db in
      log_event row.id now "control" (control_detail (command_text command) reset) (record db {
        jobs = update_where (has_id row.id) (control_row command row.state reset now) db.jobs;
        leases =
            if drops_lease command row.state
            then delete_where (holds row.id) db.leases
            else db.leases;
      })

  unfoldable pub request_control : String → ℕ → Command → Timestamp → Db → Result (Option Job × Db)
  unfolding write_control
  request_control repository issue_number command now db =
      elim (find (has_issue repository issue_number) db.jobs) [
        | none ↦ ok (none, db)
        | some row ↦
            if is_known command
            then ok (
              some (control_row command row.state (resets command row db) now row),
              write_control command row now db,
            )
            else err (unknown_command (command_text command))
      ]
