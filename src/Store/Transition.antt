-- ===== src/Store/Transition.antt =====
-- The state machine of src/symphony/store.py: ALLOWED_TRANSITIONS and `Store.transition`.
pub mod Legal
use openhands_symphony.Base.{
  String, Bool, true, false, not, Option, none, some, ◌||◌, if◌then◌else◌, find, update_where,
  delete_where,
}
use openhands_symphony.Models.{
  Timestamp, JobState, state_value, state_eq, is_active, is_terminal, Job,
}
use openhands_symphony.Store.Schema.{
  transition_detail, Db, invalid_transition, unknown_job, Result, ok, err, has_id, holds,
}
use openhands_symphony.Store.Log.{log_event}

-- `new_state in ALLOWED_TRANSITIONS[current]`
unfoldable pub allowed : JobState → JobState → Bool
allowed JobState.queued JobState.running = true
allowed JobState.queued JobState.needs_guidance = true
allowed JobState.queued JobState.pr_open = true
allowed JobState.queued JobState.blocked = true
allowed JobState.queued JobState.failed = true
allowed JobState.queued JobState.canceled = true
allowed JobState.running JobState.queued = true
allowed JobState.running JobState.needs_guidance = true
allowed JobState.running JobState.pr_open = true
allowed JobState.running JobState.blocked = true
allowed JobState.running JobState.failed = true
allowed JobState.running JobState.canceled = true
allowed JobState.needs_guidance JobState.queued = true
allowed JobState.needs_guidance JobState.canceled = true
allowed JobState.needs_guidance JobState.failed = true
allowed JobState.pr_open JobState.queued = true
allowed JobState.pr_open JobState.reviewing = true
allowed JobState.pr_open JobState.done = true
allowed JobState.pr_open JobState.canceled = true
allowed JobState.reviewing JobState.pr_open = true
allowed JobState.reviewing JobState.queued = true
allowed JobState.reviewing JobState.done = true
allowed JobState.reviewing JobState.failed = true
allowed JobState.reviewing JobState.canceled = true
allowed JobState.blocked JobState.queued = true
allowed JobState.blocked JobState.canceled = true
allowed JobState.failed JobState.queued = true
allowed JobState.failed JobState.canceled = true
allowed JobState.canceled JobState.queued = true
allowed _ _ = false

-- The keyword arguments of `transition`; `none` is an argument left out.
pub record TransitionArgs : Type 0 where
  pub phase : Option String
  pub actionable_message : Option String
  pub terminal_reason : Option String
  pub validation_summary : Option String
  pub release_lease : Option Bool

abbrev pub no_args : TransitionArgs
no_args = record {
  phase = none;
  actionable_message = none;
  terminal_reason = none;
  validation_summary = none;
  release_lease = none;
}

abbrev pub get_or {ℓ} : {A : Type ℓ} → Option A → A → A
get_or none d = d
get_or (some a) d = a

unfoldable pub should_release : JobState → TransitionArgs → Bool
should_release new_state args = get_or args.release_lease (not (is_active new_state))

-- The assignments of the UPDATE statement, in the row of the job.
unfoldable pub apply_transition : JobState → TransitionArgs → Timestamp → Job → Job
unfolding should_release
apply_transition new_state args now j = record j {
  state = new_state;
  updated_at = now;
  phase = get_or args.phase j.phase;
  actionable_message = get_or args.actionable_message j.actionable_message;
  validation_summary = get_or args.validation_summary j.validation_summary;
  terminal_reason = elim args.terminal_reason [ none ↦ j.terminal_reason | some r ↦ some r ];
  terminal_outcome = elim args.terminal_reason [
    | none ↦ j.terminal_outcome
    | some r ↦ some (state_value new_state)
  ];
  finished_at = if is_terminal new_state then some now else j.finished_at;
  lease_owner = if should_release new_state args then none else j.lease_owner;
  lease_expires_at = if should_release new_state args then none else j.lease_expires_at;
}

-- The transaction behind its guards.
unfoldable pub write_transition :
    String → JobState → JobState → TransitionArgs → Timestamp → Db → Db
unfolding should_release log_event
write_transition job_id current new_state args now db =
    log_event job_id now "transition"
      (transition_detail current new_state args.phase args.actionable_message args.terminal_reason
        args.validation_summary)
      (record db {
        jobs = update_where (has_id job_id) (apply_transition new_state args now) db.jobs;
        leases =
            if should_release new_state args
            then delete_where (holds job_id) db.leases
            else db.leases;
      })

unfoldable pub may_move : JobState → JobState → Bool
may_move current new_state = state_eq new_state current || allowed current new_state

-- The row is read again at the end: the job is there, since the update keeps ids.
unfoldable pub transition : String → JobState → TransitionArgs → Timestamp → Db → Result (Job × Db)
transition job_id new_state args now db = elim (find (has_id job_id) db.jobs) [
  | none ↦ err (unknown_job job_id)
  | some row ↦
      if may_move row.state new_state
      then ok (
        apply_transition new_state args now row,
        write_transition job_id row.state new_state args now db,
      )
      else err (invalid_transition row.state new_state)
]
