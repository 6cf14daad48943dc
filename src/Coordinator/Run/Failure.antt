-- ===== src/Coordinator/Run/Failure.antt =====
-- The except clauses of `_run_claimed` of src/symphony/coordinator.py, up to their `_finish`.
use openhands_symphony.Base.{
  ℕ, String, Bool, not, Option, none, some, List, [], ◌∷◌, ◌&&◌, ◌||◌, ◌==◌, string_eq, nat_eq, ltb,
  if◌then◌else◌,
}
use openhands_symphony.Models.{JobState, state_eq, Job}
use openhands_symphony.Store.Schema.{integrity_error}
use openhands_symphony.Store.Log.{set_provider_backoff}
use openhands_symphony.Store.Jobs.{get_job_by_id}
use openhands_symphony.Store.Transition.{TransitionArgs, no_args, get_or, transition}
use openhands_symphony.Coordinator.Runs.{finish}
use openhands_symphony.Coordinator.Exec.{
  Failure, store_error, github_error, stale_issue, provider_error, workspace_error, os_error, Frame,
  Exec, pure, ◌>>=◌, ◌>>◌, try_except, commit, commit_total, ask,
}
use openhands_symphony.Coordinator.Agent.{QuotaState, Provider}
use openhands_symphony.Coordinator.Host.{Host}
use openhands_symphony.Coordinator.Intake.{with_message, releasing}
use openhands_symphony.Coordinator.Recovery.{has_number}
use openhands_symphony.Coordinator.Result.{with_jitter, or_text, backoff_seconds}

abbrev pub with_terminal : String → String → TransitionArgs
with_terminal phase reason = record no_args { phase = some phase; terminal_reason = some reason }

-- `current.pr_number and current.state in {JobState.PR_OPEN, JobState.REVIEWING}`
unfoldable pub has_live_pr : Job → Bool
has_live_pr current =
    has_number current.pr_number
    && (state_eq current.state JobState.pr_open || state_eq current.state JobState.reviewing)

-- `a or b` on seconds
abbrev pub or_seconds : Option ℕ → ℕ → ℕ
or_seconds none base = base
or_seconds (some n) base = if n == 0 then base else n

module _ (h : Host) where
  -- `job = self.store.transition(job.id, ...)`
  abbrev pub move_to : Frame → JobState → TransitionArgs → Exec Job
  move_to frame target args = commit h.clock (λ now db. transition frame.job.id target args now db)

  unfoldable pub on_stale : Frame → (current : Job) → (text : String) → Exec Job
  on_stale frame current text =
      if has_number current.pr_number
      then move_to frame JobState.pr_open (
          releasing "mutation-guard" (
            h.append "The draft PR is preserved; autonomous mutation stopped: "
              (h.redact text 2000)))
      else move_to frame JobState.needs_guidance
          (with_message "mutation-guard" (h.redact text 2000))

  -- The first provider that answers that it is limited; one whose question raises is passed over.
  unfoldable pub limited_provider : List Provider → Exec (Option (String × QuotaState))
  limited_provider [] = pure none
  limited_provider (p ∷ ps) = do
    state ←
        try_except (do quota ← ask p.quota_or_rate_limit_state; pure (some quota))
          (λ _. some (pure none))
    elim state [
      | none ↦ limited_provider ps
      | some quota ↦ if quota.limited then pure (some (p.name, quota)) else limited_provider ps
    ]

  abbrev pub rest_provider : (provider detail : String) → ℕ → Exec (Unit {0})
  rest_provider provider detail seconds = do
    delay ← (λ w. pure (with_jitter h seconds w.tick) w)
    commit_total h.clock (λ now db. (tt {0}, set_provider_backoff provider detail delay now db))

  unfoldable pub on_limited :
      Frame → (current : Job) → (provider : String) → QuotaState → (detail : String) → Exec Job
  on_limited frame current provider quota detail = do
    rest_provider provider detail
        (or_seconds quota.retry_after_seconds h.config.provider_backoff_base_seconds)
    if has_number current.pr_number
        then move_to frame JobState.pr_open (
            releasing "review-provider-quota-backoff" (
              h.append "Provider " (
                h.append provider
                  (h.append " reached a quota/rate limit; the draft PR is preserved: " detail))))
        else move_to frame JobState.queued (
            with_message "provider-quota-backoff"
              (h.append "Provider quota/rate limit observed; retrying after backoff: " detail))

  unfoldable pub on_tool_failure : Frame → (current : Job) → (detail : String) → Exec Job
  unfolding has_live_pr backoff_seconds
  on_tool_failure frame current detail =
      if has_live_pr current
      then move_to frame JobState.pr_open (
          releasing "review-provider-failure"
            (h.append "Review provider/tool failed; the draft PR is preserved: " detail))
      else if not frame.provider_turn_started
      then move_to frame JobState.needs_guidance (
          with_message "provider-launch-failure" (
            h.append
              "The provider never accepted an implementation turn, so no implementation attempt was consumed. Fix the reported infrastructure error, run `agentctl doctor`, then use /agent retry: "
              detail))
      else if ltb frame.job.attempt h.config.max_attempts
      then (do
        rest_provider frame.job.implementation_provider detail (
            backoff_seconds h.config.provider_backoff_base_seconds
              h.config.provider_backoff_max_seconds frame.job.attempt)
        move_to frame JobState.queued (
            with_message "provider-tool-retry"
              (h.append "Provider/tool failure; retrying after backoff: " detail)))
      else move_to frame JobState.failed (
          with_terminal "provider-tool-failure" (
            h.append "Provider/tool failure exhausted "
              (h.append (h.encode (h.digits frame.job.attempt)) (h.append " attempts: " detail))))

  abbrev pub by_limited :
      Frame → (current : Job) → (detail : String) → Option (String × QuotaState) → Exec Job
  by_limited frame current detail none = on_tool_failure frame current detail
  by_limited frame current detail (some (provider, quota)) =
      on_limited frame current provider quota (h.redact (or_text quota.detail detail) 4000)

  unfoldable pub on_provider_error : Frame → (current : Job) → (text : String) → Exec Job
  unfolding limited_provider on_limited on_tool_failure
  on_provider_error frame current text = do
    limited ← limited_provider h.providers
    by_limited frame current (h.redact text 4000) limited

  -- GitHubError, WorkspaceError, StoreError, OSError
  unfoldable pub on_orchestrator_error : Frame → (current : Job) → (text : String) → Exec Job
  unfolding has_live_pr
  on_orchestrator_error frame current text =
      let detail = h.redact text 4000 in
      if has_live_pr current
      then move_to frame JobState.pr_open (
          releasing "review-orchestrator-failure"
            (h.append "Review failed; the draft PR is preserved: " detail))
      else if state_eq current.state JobState.running
      then move_to frame JobState.failed (with_terminal "orchestrator-failure" detail)
      else pure current

  unfoldable pub on_unexpected : Frame → (current : Job) → (text : String) → Exec Job
  unfolding has_live_pr
  on_unexpected frame current text =
      let detail = h.redact text 4000 in
      if has_live_pr current
      then move_to frame JobState.pr_open (
          releasing "unexpected-review-failure"
            (h.append "Unexpected review/orchestrator failure; draft PR preserved: " detail))
      else move_to frame JobState.failed (with_terminal "unexpected-orchestrator-failure" detail)

  -- The clauses in their order; `integrity_error` is an exception of sqlite3.
  unfoldable pub by_failure : Frame → (current : Job) → Failure → Exec Job
  unfolding on_stale on_provider_error on_orchestrator_error on_unexpected
  by_failure frame current (stale_issue m) = on_stale frame current (h.message_text (stale_issue m))
  by_failure frame current (provider_error m) =
      on_provider_error frame current (h.message_text (provider_error m))
  by_failure frame current (store_error integrity_error) =
      on_unexpected frame current (h.failure_text (store_error integrity_error))
  by_failure frame current (store_error e) =
      on_orchestrator_error frame current (h.failure_text (store_error e))
  by_failure frame current (github_error m) =
      on_orchestrator_error frame current (h.failure_text (github_error m))
  by_failure frame current (workspace_error m) =
      on_orchestrator_error frame current (h.failure_text (workspace_error m))
  by_failure frame current (os_error m) =
      on_orchestrator_error frame current (h.failure_text (os_error m))
  by_failure frame current f = on_unexpected frame current (h.failure_text f)

  -- The clauses up to the `return self._finish(job)` that ends each branch, which `close_run` adds.
  -- Every clause starts with `current = self.store.get_job_by_id(job.id) or job`.
  unfoldable pub after_failure : Failure → Exec Job
  unfolding by_failure
  after_failure f w =
      by_failure w.frame (get_or (get_job_by_id w.frame.job.id w.db) w.frame.job) f w

  -- The except clauses in full.
  unfoldable pub close_run : Failure → Exec Job
  unfolding after_failure
  close_run f = do settled ← after_failure f; finish h settled
