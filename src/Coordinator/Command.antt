-- ===== src/Coordinator/Command.antt =====
-- `control` and `apply_control_comment` of src/symphony/coordinator.py: the operator's commands.
pub mod Once
use openhands_symphony.Base.{
  ℕ, suc, String, Bool, true, false, not, Option, none, some, [], ◌∷◌, ◌&&◌, ◌==◌, string_eq,
  if◌then◌else◌,
}
use openhands_symphony.Models.{JobState, state_eq, IssueSnapshot, Job}
use openhands_symphony.Store.Log.{record_delivery, delivery_recorded, acquire_operation_lock}
use openhands_symphony.Store.Jobs.{
  get_job, accept_snapshot, update_job, set_implementation_provider, set_review_provider,
  set_review_required, set_concurrency_key,
}
use openhands_symphony.Store.Transition.{transition}
use openhands_symphony.Store.Control.{Command, cancel, pause, resume, retry, request_control}
use openhands_symphony.Config.{concurrency_key}
use openhands_symphony.Intake.{RoutingDecision, route}
use openhands_symphony.Coordinator.Exec.{
  control_labels_set, Exec, pure, ◌>>=◌, ◌>>◌, query, try_finally, commit, commit_total, ask, send,
}
use openhands_symphony.Coordinator.Host.{Host}
use openhands_symphony.Coordinator.Runs.{
  available_reviewers, cancel_active_run, release_lock, sync_status, report,
}
use openhands_symphony.Coordinator.Intake.{with_message, enqueue}

-- `command in {"pause", "cancel"}` and `command in {"resume", "retry"}`
abbrev pub stops : Command → Bool
stops cancel = true
stops pause = true
stops _ = false

abbrev pub requeues : Command → Bool
requeues resume = true
requeues retry = true
requeues _ = false

module _ (h : Host) where
  -- `self._sync_status(job)`, the report, `return job`
  unfoldable pub conclude : Job → Exec (Option Job)
  conclude job = do sync_status h job; report h job; pure (some job)

  unfoldable pub reject_requeue : Job → String → String → Exec (Option Job)
  unfolding conclude
  reject_requeue job phase message = do
    moved ←
        commit h.clock
          (λ now db. transition job.id JobState.needs_guidance (with_message phase message) now db)
    conclude moved

  -- The routing of the accepted revision is written into the job.
  unfoldable pub accept_routing : Job → IssueSnapshot → RoutingDecision → String → Exec (Option Job)
  unfolding conclude reject_requeue
  accept_routing job snapshot decision implementation = do
    accepted ← (λ w.
        commit h.clock
          (λ now db. accept_snapshot h.hashing job.id snapshot now (h.clock (suc w.tick)) db) w)
    elim (concurrency_key h.join h.config snapshot.repository snapshot.labels) [
      | none ↦ reject_requeue accepted "invalid-concurrency-scope" (
          h.append "Cannot resume with the current concurrency scope: "
            (h.redact "exactly one configured concurrency-scope label is required" 2000))
      | some key ↦ do
        updated ← commit h.clock (λ now db.
            update_job accepted.id
              (set_implementation_provider implementation
                ∷ set_review_provider decision.review_provider
                ∷ set_review_required decision.review_required
                ∷ set_concurrency_key key
                ∷ [])
              now db)
        conclude updated
    ]

  -- An explicit requeue accepts the live revision of the issue, if its routing is valid.
  unfoldable pub requeue_live : Job → Exec (Option Job)
  unfolding reject_requeue accept_routing
  requeue_live job = do
    snapshot ← ask (h.github.get_issue job.repository job.issue_number)
    available ← available_reviewers h
    let decision = route h.lower snapshot available
    let refused =
        reject_requeue job "invalid-explicit-requeue"
          (h.append "Cannot resume with the current live routing: " (h.redact decision.reason 2000))
    elim decision.implementation_provider [
      | none ↦ refused
      | some implementation ↦
          if decision.eligible && not (implementation == "")
          then accept_routing job snapshot decision implementation
          else refused
    ]

  -- Without a job, resume and retry take the issue in.
  unfoldable pub control_missing : String → ℕ → Command → Exec (Option Job)
  control_missing repository issue_number command =
      if requeues command
      then (do
        snapshot ← ask (h.github.get_issue repository issue_number)
        taken ← enqueue h snapshot
        pure (some taken.0))
      else pure none

  abbrev cancel_before : Command → Option Job → Exec (Unit {0})
  cancel_before command none = pure tt
  cancel_before command (some before) =
      if stops command then cancel_active_run h before else pure tt

  unfoldable pub control_present : Command → Option Job → Job → Exec (Option Job)
  unfolding conclude requeue_live
  control_present command before job = do
    cancel_before command before
    if requeues command && state_eq job.state JobState.queued
        then requeue_live job
        else conclude job

  unfoldable pub control : String → ℕ → Command → Exec (Option Job)
  unfolding control_missing control_present
  control repository issue_number command = do
    before ← query (get_job repository issue_number)
    found ←
        commit h.clock
          (λ now db. request_control h.search_in repository issue_number command now db)
    send (control_labels_set repository issue_number command)
        (h.github.set_control_state repository issue_number command)
    elim found [
      | none ↦ control_missing repository issue_number command
      | some job ↦ control_present command before job
    ]

  -- `(self.store.get_job(repository, issue_number), False)`
  abbrev unapplied : String → ℕ → Exec (Option Job × Bool)
  unapplied repository issue_number = query (λ db. (get_job repository issue_number db, false))

  abbrev pub delivery_id : String → ℕ → String
  delivery_id repository comment_id =
      h.append "issue-comment:" (h.join repository (h.encode (h.digits comment_id)))

  abbrev pub lock_name : String → ℕ → String
  lock_name repository comment_id =
      h.append "control:" (h.join repository (h.encode (h.digits comment_id)))

  -- Behind the lock: the delivery is looked up again, and recorded after the command.
  unfoldable pub apply_locked : String → ℕ → ℕ → Command → Exec (Option Job × Bool)
  unfolding control
  apply_locked repository issue_number comment_id command = do
    recorded ← query (delivery_recorded (delivery_id repository comment_id))
    if recorded then unapplied repository issue_number else (do
      job ← control repository issue_number command
      commit_total h.clock (λ now db.
          record_delivery (delivery_id repository comment_id) "issue_comment_command"
            (h.payload_hash repository issue_number comment_id command) (some repository)
            (some issue_number) now db)
      pure (job, true))

  unfoldable pub apply_control_comment : String → ℕ → ℕ → Command → Exec (Option Job × Bool)
  unfolding apply_locked
  apply_control_comment repository issue_number comment_id command = do
    recorded ← query (delivery_recorded (delivery_id repository comment_id))
    if recorded then unapplied repository issue_number else (do
      acquired ←
          commit_total h.clock
            (λ now db. acquire_operation_lock (lock_name repository comment_id) h.owner 900 now db)
      if acquired
          then try_finally (apply_locked repository issue_number comment_id command)
              (release_lock h (lock_name repository comment_id))
          else unapplied repository issue_number)
