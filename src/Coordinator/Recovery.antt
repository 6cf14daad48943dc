-- ===== src/Coordinator/Recovery.antt =====
-- `recover_expired_leases` of src/symphony/coordinator.py.
use openhands_symphony.Base.{
  ℕ, String, Bool, false, not, Option, none, some, List, [], ◌∷◌, ◌++◌, ◌&&◌, ◌||◌, ◌==◌, string_eq,
  nat_eq, if◌then◌else◌,
}
use openhands_symphony.Models.{JobState, state_eq, Job}
use openhands_symphony.Store.Schema.{run_detail}
use openhands_symphony.Store.Log.{record_event}
use openhands_symphony.Store.Jobs.{get_job_by_id}
use openhands_symphony.Store.Lease.{expired_lease_jobs, reap_expired_leases}
use openhands_symphony.Store.Transition.{transition}
use openhands_symphony.Store.Control.{retry, request_control}
use openhands_symphony.Coordinator.Exec.{
  ProviderRun, Exec, pure, ◌>>=◌, ◌>>◌, query, try_except, commit, commit_log, commit_total, send,
  run_canceled,
}
use openhands_symphony.Coordinator.Agent.{Provider}
use openhands_symphony.Coordinator.Host.{Host}
use openhands_symphony.Coordinator.Runs.{durable_run, sync_status, report}
use openhands_symphony.Coordinator.Intake.{releasing}

-- What the loop appends to its results: repository, issue and a text.
pub record Recovered : Type 0 where
  pub repository : String
  pub issue_number : ℕ
  pub note : String

-- The answer of the attempt to cancel the durable run: the text of the exception, if it failed.
pub data Canceled : Type 0 where
  canceled : Canceled
  failed : String → Canceled

-- Python's truth of an optional text and an optional number.
abbrev pub has_text : Option String → Bool
has_text none = false
has_text (some s) = not (s == "")

abbrev pub has_number : Option ℕ → Bool
has_number none = false
has_number (some n) = not (n == 0)

module _ (h : Host) where
  -- `except Exception`: the cancellation and its event, or the text of what was raised.
  unfoldable pub cancel_expired : Job → Provider → ProviderRun → Exec Canceled
  cancel_expired job p run =
      try_except
        (do
          send (run_canceled run) (p.cancel run)
          commit_log h.clock (λ now db.
              record_event job.id "expired-run-canceled"
                (run_detail run.provider run.conversation_id) now db)
          pure canceled)
        (λ f. some (pure (failed (h.redact (h.failure_text f) 2000))))

  -- The state in which a job stops whose run could not be canceled.
  unfoldable pub stop_state : Job → JobState
  stop_state job =
      if state_eq job.state JobState.reviewing && has_number job.pr_number
      then JobState.pr_open
      else JobState.needs_guidance

  unfoldable pub stop_message : Job → String → String
  stop_message job detail =
      if state_eq job.state JobState.reviewing && has_number job.pr_number
      then h.append
          "The expired review/repair conversation could not be canceled safely; the draft PR is preserved. Inspect OpenHands before retrying: "
          detail
      else h.append
          "The expired implementation conversation could not be canceled safely. Inspect OpenHands, then explicitly retry: "
          detail

  abbrev noted : Job → String → List Recovered
  noted job note =
      record { repository = job.repository; issue_number = job.issue_number; note = note } ∷ []

  -- `transition` out of the lease, the status, the report and the note.
  unfoldable pub stop_expired : Job → JobState → String → String → String → Exec (List Recovered)
  stop_expired job target phase message note = do
    recovered ← commit h.clock (λ now db. transition job.id target (releasing phase message) now db)
    sync_status h recovered
    report h recovered
    pure (noted job note)

  abbrev follow_up : Job → Option Job → Exec (Option Job)
  follow_up job none = pure none
  follow_up job (some recovered) =
      if state_eq job.state JobState.reviewing && state_eq recovered.state JobState.pr_open
      then commit h.clock
          (λ now db. request_control h.search_in job.repository job.issue_number retry now db)
      else pure (some recovered)

  abbrev publish_recovered : Option Job → Exec (Unit {0})
  publish_recovered none = pure tt
  publish_recovered (some recovered) = do sync_status h recovered; report h recovered

  -- The lease goes, and an interrupted review is queued again.
  unfoldable pub reap_job : Job → Exec (List Recovered)
  reap_job job = do
    reaped ← commit_total h.clock (λ now db. reap_expired_leases now (some (job.id ∷ [])) db)
    elim reaped [
      | [] ↦ pure []
      | _ ∷ _ ↦ do
        found ← query (get_job_by_id job.id)
        recovered ← follow_up job found
        publish_recovered recovered
        pure (noted job "expired lease recovered safely")
    ]

  unfoldable pub unavailable_message : Job → String
  unavailable_message job =
      let reviewing = state_eq job.state JobState.reviewing in
      let provider =
        if reviewing
        then h.quoted job.review_provider
        else h.quoted (some job.implementation_provider) in
      let conversation =
        if reviewing then h.display job.review_conversation_id else h.display job.conversation_id in
      h.append "Cannot safely cancel expired conversation " (
        h.append conversation (
          h.append ": provider "
            (h.append provider " is unavailable. Inspect OpenHands, then explicitly retry.")))

  -- A conversation is on record, but its provider is not configured.
  unfoldable pub recover_orphan : Job → Exec (List Recovered)
  unfolding stop_expired reap_job unavailable_message
  recover_orphan job =
      if has_text job.conversation_id || has_text job.review_conversation_id
      then stop_expired job
          (if has_number job.pr_number then JobState.pr_open else JobState.needs_guidance)
          "recovery-provider-unavailable" (unavailable_message job)
          "expired-run provider unavailable"
      else reap_job job

  -- One round of the loop.
  unfoldable pub recover_job : Job → Exec (List Recovered)
  unfolding cancel_expired stop_state stop_message stop_expired reap_job recover_orphan
  recover_job job = elim (durable_run h job) [
    | none ↦ recover_orphan job
    | some (p, run) ↦ do
      outcome ← cancel_expired job p run
      elim outcome [
        | canceled ↦ reap_job job
        | failed detail ↦
            stop_expired job (stop_state job) "recovery-cancel-failed" (stop_message job detail)
              "expired-run cancel failed; manual guidance"
      ]
  ]

  unfoldable pub recover_all : List Job → Exec (List Recovered)
  unfolding recover_job
  recover_all [] = pure []
  recover_all (job ∷ jobs) = do mine ← recover_job job; rest ← recover_all jobs; pure (mine ++ rest)

  unfoldable pub recover_expired_leases : Exec (List Recovered)
  unfolding recover_all
  recover_expired_leases = do
    jobs ← commit_total h.clock (λ now db. (expired_lease_jobs now db, db))
    recover_all jobs
