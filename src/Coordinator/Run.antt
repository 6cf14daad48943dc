-- ===== src/Coordinator/Run.antt =====
-- `_run_claimed` of src/symphony/coordinator.py: the life of a claimed job.
pub mod Failure
pub mod Steps
pub mod Implement
pub mod Deliver
pub mod Fenced
pub mod Settled
use openhands_symphony.Base.{
  ℕ, String, Bool, true, false, not, Option, none, some, List, [], ◌∷◌, ◌&&◌, ◌||◌, ◌==◌, string_eq,
  leb, if◌then◌else◌,
}
use openhands_symphony.Models.{JobState, IssueSnapshot, content_hash, Job}
use openhands_symphony.Store.Log.{set_provider_backoff}
use openhands_symphony.Store.Jobs.{
  set_worktree, set_phase, set_pr_number, set_pr_url, set_retry_requested,
}
use openhands_symphony.Store.Transition.{TransitionArgs, no_args}
use openhands_symphony.Config.{concurrency_key}
use openhands_symphony.Intake.{RoutingDecision, route}
use openhands_symphony.Coordinator.Exec.{Exec, pure, ◌>>=◌, ◌>>◌, try_except, ask}
use openhands_symphony.Coordinator.Agent.{AuthStatus, QuotaState, Provider}
use openhands_symphony.Coordinator.Host.{PullRequest, Host}
use openhands_symphony.Coordinator.Runs.{find_provider, sync_status, finish}
use openhands_symphony.Coordinator.Intake.{with_message, opt_eq, bool_eq}
use openhands_symphony.Coordinator.Result.{or_text}
use openhands_symphony.Coordinator.Review.{review}
use openhands_symphony.Coordinator.Run.Failure.{with_terminal, or_seconds, rest_provider, close_run}
use openhands_symphony.Coordinator.Run.Steps.{assign_job, updated, moved, stop}
use openhands_symphony.Coordinator.Run.Implement.{ended, goes_on, implement}
use openhands_symphony.Coordinator.Run.Deliver.{deliver}

-- `{job.review_provider} if job.review_provider else set()`
abbrev own_reviewer : Job → List String
own_reviewer job = elim job.review_provider [
  | none ↦ []
  | some name ↦ if name == "" then [] else name ∷ []
]

-- The live decision is not the one under which the job was claimed.
unfoldable pub routing_changed : Job → RoutingDecision → Bool
routing_changed job decision =
    not decision.eligible
    || not (opt_eq decision.implementation_provider (some job.implementation_provider))
    || not (bool_eq decision.review_required job.review_required)
    || not (opt_eq decision.review_provider job.review_provider)

module _ (h : Host) where
  abbrev number : ℕ → String
  number n = h.encode (h.digits n)

  -- What keeps the provider from a turn, in the order of the tests.
  unfoldable pub refuse_turn : Job → AuthStatus → (Bool × String) → QuotaState → Option (Exec Job)
  refuse_turn job auth health quota =
      if not auth.authenticated
      then some (
          stop h job JobState.failed (
            with_terminal "authentication-failure" (
              h.append job.implementation_provider
                (h.append " authentication failed: " (h.redact auth.detail 2000)))))
      else if quota.limited
      then some (
          if leb h.config.max_attempts job.attempt
          then stop h job JobState.failed (
              with_terminal "provider-quota-failure" (
                h.append "Provider quota/rate limit exhausted " (
                  h.append (number job.attempt)
                    (h.append " attempts: " (h.redact quota.detail 2000)))))
          else (do
            rest_provider h job.implementation_provider (h.redact quota.detail 2000)
                (or_seconds quota.retry_after_seconds h.config.provider_backoff_base_seconds)
            stop h job JobState.queued
                (with_message "provider-backoff" (h.redact quota.detail 2000))))
      else if not health.0
      then some (
          stop h job JobState.needs_guidance (
            with_message "provider-unhealthy" (
              h.append job.implementation_provider (
                h.append
                  " is not healthy; fix the provider service, run `agentctl doctor`, then use /agent retry: "
                  (h.redact health.1 2000)))))
      else if leb h.config.max_attempts job.attempt
      then some (
          stop h job JobState.failed (
            with_terminal "retry-limit" (
              h.append "Maximum of "
                (h.append (number h.config.max_attempts) " implementation attempts reached."))))
      else none

  -- From the tests of the provider to the end of the run.
  unfoldable pub run_provider : Job → IssueSnapshot → Provider → Option PullRequest → Exec Job
  unfolding refuse_turn
  run_provider job live provider existing = do
    auth ← ask provider.auth_status
    health ← ask provider.health
    quota ← ask provider.quota_or_rate_limit_state
    elim (refuse_turn job auth health quota) [
      | some refused ↦ refused
      | none ↦ do
        implemented ← implement h job live provider
        elim implemented [
          | ended finished ↦ pure finished
          | goes_on (current, (worktree, result)) ↦ deliver h current live existing worktree result
        ]
    ]

  -- The pull request of an earlier run is reviewed before anything else.
  unfoldable pub review_existing : Job → IssueSnapshot → Exec Job
  review_existing job live = do
    worktree ← ask (h.workspaces.checkout job live)
    current ← updated h job (
        set_worktree (some worktree)
        ∷ set_phase "recovered-existing-pr-review"
        ∷ set_retry_requested false
        ∷ [])
    ask (h.workspaces.prepare_for_agent worktree)
    ask (h.workspaces.verify_integrity current worktree)
    opened ←
        moved h current JobState.pr_open (record no_args {
          phase = some "recovered-existing-pr-review";
          release_lease = some false;
        })
    sync_status h opened
    reviewed ← review h opened worktree
    finish h reviewed

  unfoldable pub run_existing : Job → IssueSnapshot → Provider → PullRequest → Exec Job
  unfolding run_provider review_existing
  run_existing job live provider pr = do
    current ← updated h job (set_pr_number (some pr.number) ∷ set_pr_url (some pr.url) ∷ [])
    if not current.review_required && not current.retry_requested
        then stop h current JobState.pr_open
            (record no_args { phase = some "recovered-existing-pr" })
        else if current.review_required
        then review_existing current live
        else run_provider current live provider (some pr)

  unfoldable pub run_admitted : Job → IssueSnapshot → Exec Job
  unfolding run_existing run_provider find_provider
  run_admitted job live = elim (find_provider h job.implementation_provider) [
    | none ↦ stop h job JobState.needs_guidance (
        with_message "provider-configuration-changed" (
          h.append "Provider " (
            h.append (h.quoted (some job.implementation_provider))
              " is no longer enabled; inspect configuration and retry.")))
    | some provider ↦ do
      sync_status h job
      existing ← ask (h.github.find_open_pr job.repository job.branch)
      elim existing [
        | some pr ↦ run_existing job live provider pr
        | none ↦ run_provider job live provider none
      ]
  ]

  -- The issue must still be the one that was claimed.
  unfoldable pub run_live : Job → IssueSnapshot → Exec Job
  unfolding routing_changed run_admitted
  run_live job live =
      let decision = route h.lower live (own_reviewer job) in
      if not (content_hash h.hashing live == job.content_hash)
      then stop h job JobState.needs_guidance (
          with_message "issue-edited"
            "Issue title or body changed after claim. Review the edit, then use /agent resume.")
      else if routing_changed job decision
      then stop h job JobState.needs_guidance (
          with_message "routing-changed" (
            h.append "Live routing no longer matches the claim: "
              (h.append (or_text decision.reason "provider changed") ".")))
      else elim (concurrency_key h.join h.config job.repository live.labels) [
        | none ↦ stop h job JobState.needs_guidance (
            with_message "concurrency-scope-changed" (
              h.append "Live concurrency scope no longer matches the claim: "
                (h.redact "exactly one configured concurrency-scope label is required" 2000)))
        | some key ↦
            if key == job.concurrency_key
            then run_admitted job live
            else stop h job JobState.needs_guidance (
                with_message "concurrency-scope-changed"
                  "Live concurrency scope no longer matches the claim.")
      ]

  unfoldable pub run_body : Job → Exec Job
  unfolding run_live
  run_body claimed = do
    live ← ask (h.github.get_issue claimed.repository claimed.issue_number)
    run_live claimed live

  -- The whole method: the local variables are set, and every exception has its clause. The heartbeat of
  -- `run_claimed` runs beside it.
  unfoldable pub run_claimed : Job → Exec Job
  unfolding run_body close_run
  run_claimed claimed w =
      try_except (run_body claimed) (λ f. some (close_run h f))
        (record w { frame = record { job = claimed; provider_turn_started = false } })
