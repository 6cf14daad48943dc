-- ===== src/Coordinator/Result.antt =====
-- `_publish_provider_result` and `_transition_from_provider_result` of
-- src/symphony/coordinator.py: where a job goes once its provider has answered.
pub mod Retry
pub mod Backoff
use Prim.Native.Nat.{◌*◌, ◌^◌, ◌/◌, ◌+◌}
use openhands_symphony.Base.{
  ℕ, ◌-◌, String, Option, none, some, ◌==◌, string_eq, ltb, leb, if◌then◌else◌,
}
use openhands_symphony.Models.{JobState, Job}
use openhands_symphony.Store.Schema.{result_detail}
use openhands_symphony.Store.Log.{set_provider_backoff, record_event}
use openhands_symphony.Store.Jobs.{get_job_by_id}
use openhands_symphony.Store.Transition.{TransitionArgs, no_args, get_or, transition}
use openhands_symphony.Coordinator.Exec.{
  Exec, pure, ◌>>=◌, ◌>>◌, query, commit, commit_log, commit_total, result_commented, send,
}
use openhands_symphony.Coordinator.Agent.{ProviderOutcome, ProviderResult, outcome_text}
use openhands_symphony.Coordinator.Host.{Host}
use openhands_symphony.Coordinator.Intake.{with_message}

-- Python's `a or b` on texts.
abbrev pub or_text : String → String → String
or_text a b = if a == "" then b else a

abbrev with_reason : String → String → TransitionArgs
with_reason phase reason = record no_args { phase = some phase; terminal_reason = some reason }

abbrev with_both : String → String → String → TransitionArgs
with_both phase message reason = record (with_message phase message) {
  terminal_reason = some reason;
}

-- `str(result.raw.get("failure_kind") or "implementation")`
unfoldable pub kind_of : ProviderResult → String
kind_of result = or_text (get_or result.failure_kind "") "implementation"

-- `min(base * 2 ** max(0, attempt - 1), cap)`
unfoldable pub backoff_seconds : ℕ → ℕ → ℕ → ℕ
backoff_seconds base cap attempt =
    let seconds = base * 2 ^ (attempt - 1) in if leb seconds cap then seconds else cap

-- `max(1, min(seconds // 4, 60))`, the bound of the random seconds that are added to a delay
unfoldable pub jitter_bound : ℕ → ℕ
jitter_bound seconds =
    if leb (seconds / 4) 60 then (if leb 1 (seconds / 4) then seconds / 4 else 1) else 60

module _ (h : Host) where
  unfoldable pub with_jitter : (seconds tick : ℕ) → ℕ
  unfolding jitter_bound
  with_jitter seconds tick = seconds + h.random (jitter_bound seconds) tick

  abbrev pub move : Job → JobState → TransitionArgs → Exec (Option Job)
  move job target args = do
    moved ← commit h.clock (λ now db. transition job.id target args now db)
    pure (some moved)

  -- The provider rests for the jittered time, and the job is queued again.
  unfoldable pub retry_later : Job → ℕ → String → String → String → Exec (Option Job)
  unfolding with_jitter
  retry_later job seconds detail phase message = do
    delay ← (λ w. pure (with_jitter seconds w.tick) w)
    commit_total h.clock
        (λ now db. (tt {0}, set_provider_backoff job.implementation_provider detail delay now db))
    move job JobState.queued (with_message phase message)

  unfoldable pub quota_failure : Job → String → Exec (Option Job)
  unfolding retry_later
  quota_failure job detail =
      if leb h.config.max_attempts job.attempt
      then move job JobState.failed (
          with_reason "provider-quota-failure" (
            h.append "Provider quota/rate limit exhausted "
              (h.append (h.encode (h.digits job.attempt)) (h.append " attempts: " detail))))
      else retry_later job h.config.provider_backoff_base_seconds detail "provider-quota-backoff"
          (h.append "Provider quota/rate limit observed; retrying after backoff: " detail)

  unfoldable pub tool_failure : Job → String → Exec (Option Job)
  unfolding retry_later backoff_seconds
  tool_failure job detail =
      if ltb job.attempt h.config.max_attempts
      then retry_later job
          (backoff_seconds h.config.provider_backoff_base_seconds
            h.config.provider_backoff_max_seconds job.attempt)
          detail "provider-tool-retry"
          (h.append "Provider/tool failure; retrying after backoff: " detail)
      else move job JobState.failed (with_reason "provider-tool-failure" detail)

  unfoldable pub failure : Job → String → String → String → Exec (Option Job)
  unfolding quota_failure tool_failure
  failure job kind question detail =
      if kind == "quota"
      then quota_failure job detail
      else if kind == "authentication"
      then move job JobState.failed (with_both "authentication-failure" question detail)
      else if kind == "provider-tool"
      then tool_failure job detail
      else move job JobState.failed (with_both "implementation-failed" question detail)

  unfoldable pub by_outcome : Job → ProviderOutcome → String → String → String → Exec (Option Job)
  unfolding failure
  by_outcome job ProviderOutcome.needs_guidance kind question detail =
      move job JobState.needs_guidance (
        with_message "needs-guidance" (or_text question "The agent requested additional guidance."))
  by_outcome job ProviderOutcome.blocked kind question detail =
      move job JobState.blocked (with_both "blocked" question detail)
  by_outcome job ProviderOutcome.failed kind question detail = failure job kind question detail
  by_outcome job ProviderOutcome.canceled kind question detail =
      move job JobState.canceled (with_reason "canceled" "Agent process was canceled.")
  by_outcome job ProviderOutcome.completed kind question detail = pure none

  -- The event is recorded, then the result is posted; the host makes the marker and the body of the
  -- comment from the texts.
  unfoldable pub publish_provider_result : Job → ProviderResult → Exec (Unit {0})
  unfolding outcome_text
  publish_provider_result job result = do
    let summary = h.redact (or_text result.summary "No summary was returned.") 12000
    let question = h.redact result.question_or_reason 8000
    let conversation_id =
        or_text (get_or result.conversation_id "")
          (or_text (get_or job.conversation_id "") "unknown")
    let outcome = outcome_text result.outcome
    commit_log h.clock (λ now db.
        record_event job.id "provider-result"
          (result_detail outcome summary question conversation_id) now db)
    send (result_commented job.id)
        (h.github.post_agent_result_comment job outcome summary question conversation_id)

  -- The operator's flags come before the outcome.
  unfoldable pub decide : Job → Job → ProviderResult → Exec (Option Job)
  unfolding by_outcome kind_of
  decide job current result =
      let question = h.redact result.question_or_reason 4000 in
      let summary = h.redact result.summary 4000 in
      if current.cancel_requested
      then move job JobState.canceled (with_reason "canceled" "Canceled by operator.")
      else if current.pause_requested
      then move job JobState.needs_guidance (
          with_message "paused" (
            or_text current.actionable_message
              "Paused by operator; workspace and session were preserved. Use /agent resume."))
      else by_outcome job result.outcome (kind_of result) question (or_text question summary)

  -- The job is read again after the publication.
  unfoldable pub transition_from_provider_result : Job → ProviderResult → Exec (Option Job)
  unfolding decide publish_provider_result
  transition_from_provider_result job result = do
    publish_provider_result job result
    found ← query (get_job_by_id job.id)
    decide job (get_or found job) result
