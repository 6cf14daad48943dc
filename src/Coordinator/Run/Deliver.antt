-- ===== src/Coordinator/Run/Deliver.antt =====
-- Commit, push and draft pull request (`_run_claimed` of src/symphony/coordinator.py).
use openhands_symphony.Base.{
  ℕ, String, Bool, true, false, Option, none, some, [], ◌∷◌, ◌||◌, ◌==◌, nat_eq, if◌then◌else◌,
}
use openhands_symphony.Models.{JobState, IssueSnapshot, Job}
use openhands_symphony.Store.Schema.{other}
use openhands_symphony.Store.Log.{record_event}
use openhands_symphony.Store.Jobs.{set_phase, set_pr_number, set_pr_url, set_validation_summary}
use openhands_symphony.Store.Transition.{no_args}
use openhands_symphony.Coordinator.Exec.{
  Exec, pure, ◌>>=◌, ◌>>◌, commit_log, ask, send, pushed, pr_created, validation_published,
}
use openhands_symphony.Coordinator.Agent.{ProviderResult}
use openhands_symphony.Coordinator.Host.{PullRequest, Host}
use openhands_symphony.Coordinator.Runs.{sync_status, finish}
use openhands_symphony.Coordinator.Reconcile.{ci_summary, validation_with_ci}
use openhands_symphony.Coordinator.Turn.{require_live_lease}
use openhands_symphony.Coordinator.Review.{review}
use openhands_symphony.Coordinator.Run.Failure.{with_terminal}
use openhands_symphony.Coordinator.Run.Steps.{assign_job, updated, moved, stop}

-- `existing_pr and existing_pr.number == job.pr_number`
abbrev is_current_pr : Option PullRequest → Option ℕ → Bool
is_current_pr none n = false
is_current_pr (some pr) none = false
is_current_pr (some pr) (some n) = pr.number == n

module _ (h : Host) where
  -- The lease is renewed and the issue looked at again before the guard and the push.
  unfoldable pub push_unless :
      Job → Option PullRequest → (worktree : String) → (matches : Bool) → Exec (Unit {0})
  push_unless job existing worktree matches = do
    require_live_lease h job
    ask (h.github.guard_code_mutation job (matches || is_current_pr existing job.pr_number))
    if matches
        then pure tt
        else send (pushed job.id) (h.workspaces.push worktree job.repository job.branch)

  unfoldable pub push_branch : Job → Option PullRequest → (worktree : String) → Exec (Unit {0})
  unfolding push_unless
  push_branch job existing worktree = do
    exists ← ask (h.github.remote_branch_exists job.repository job.branch)
    if exists
        then (do
          matches ← ask (h.workspaces.remote_matches worktree job.repository job.branch)
          push_unless job existing worktree matches)
        else push_unless job existing worktree false

  -- The job with its pull request, in pr-open but still under its lease.
  unfoldable pub open_draft : Job → IssueSnapshot → (summary : String) → Exec Job
  open_draft job live summary = do
    current ← updated h job (set_phase "pull-request" ∷ [])
    require_live_lease h current
    pr ←
        send (pr_created current.id)
          (h.github.create_draft_pr current (h.append "[agent] " live.title) summary)
    opened ← updated h current (set_pr_number (some pr.number) ∷ set_pr_url (some pr.url) ∷ [])
    checks ← ask (h.github.pr_checks opened.repository pr.number)
    observed ←
        updated h opened
          (set_validation_summary (validation_with_ci h opened.validation_summary checks) ∷ [])
    commit_log h.clock
        (λ now db. record_event observed.id "ci-observed" (other (ci_summary h checks)) now db)
    require_live_lease h observed
    send (validation_published observed.id) (h.github.update_pr_validation observed)
    settled ←
        moved h observed JobState.pr_open
          (record no_args { phase = some "pr-open"; release_lease = some false })
    sync_status h settled
    pure settled

  unfoldable pub conclude_run : Job → (worktree : String) → Exec Job
  conclude_run job worktree = do
    last ←
        if job.review_required
        then assign_job (review h job worktree)
        else moved h job JobState.pr_open
            (record no_args { phase = some "pr-open"; release_lease = some true })
    finish h last

  unfoldable pub publish :
      Job → IssueSnapshot → Option PullRequest → (worktree : String) → ProviderResult → Exec Job
  unfolding push_branch open_draft conclude_run
  publish job live existing worktree result = do
    push_branch job existing worktree
    opened ← open_draft job live result.summary
    conclude_run opened worktree

  -- Without changes and without a commit of its own there is nothing to deliver.
  unfoldable pub deliver :
      Job → IssueSnapshot → Option PullRequest → (worktree : String) → ProviderResult → Exec Job
  unfolding publish
  deliver job live existing worktree result = do
    ask (h.workspaces.verify_integrity job worktree)
    changed ← ask (h.workspaces.has_changes worktree)
    if changed
        then (do
          ask (h.workspaces.commit_changes worktree job.issue_number)
          publish job live existing worktree result)
        else (do
          ahead ← ask (h.workspaces.commits_ahead worktree live.default_branch)
          if ahead == 0
              then stop h job JobState.failed (
                  with_terminal "no-changes"
                    "The agent completed but produced no implementation changes.")
              else publish job live existing worktree result)
