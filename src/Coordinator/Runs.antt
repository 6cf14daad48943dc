-- ===== src/Coordinator/Runs.antt =====
-- Reviewers, durable runs, status and reports (src/symphony/coordinator.py).
use openhands_symphony.Base.{
  ℕ, suc, String, Bool, false, not, Option, none, some, List, [], ◌∷◌, ◌++◌, ◌&&◌, ◌==◌, string_eq,
  nat_eq, ltb, if◌then◌else◌, find,
}
use openhands_symphony.Models.{JobState, state_eq, Job}
use openhands_symphony.Store.Log.{acquire_operation_lock, release_operation_lock}
use openhands_symphony.Store.Jobs.{get_job_by_id, update_job, set_status_comment_id}
use openhands_symphony.Store.Transition.{get_or}
use openhands_symphony.Config.{slots}
use openhands_symphony.Coordinator.Exec.{
  ProviderRun, labels_set, status_commented, run_canceled, report_written, Failure, github_error,
  stale_issue, World, Exec, pure, ◌>>=◌, ◌>>◌, query, try_except, try_finally, commit, commit_total,
  ask, send,
}
use openhands_symphony.Coordinator.Agent.{Provider}
use openhands_symphony.Coordinator.Host.{Host}

abbrev has_comment : Option ℕ → ℕ → Bool
has_comment none n = false
has_comment (some m) n = m == n

module _ (h : Host) where
  unfoldable pub find_provider : String → Option Provider
  find_provider name = find (λ p. p.name == name) h.providers

  -- `except Exception: pass` around the question.
  unfoldable pub reviewer_if_authenticated : Provider → Exec (List String)
  reviewer_if_authenticated p =
      try_except
        (do auth ← ask p.auth_status; pure (if auth.authenticated then p.name ∷ [] else []))
        (λ _. some (pure []))

  unfoldable pub available_among : List Provider → Exec (List String)
  unfolding reviewer_if_authenticated slots
  available_among [] = pure []
  available_among (p ∷ ps) = do
    mine ←
        if p.autonomous_available
          && p.supports_review
          && ltb 0 (slots h.config.provider_concurrency p.name)
        then reviewer_if_authenticated p
        else pure []
    rest ← available_among ps
    pure (mine ++ rest)

  unfoldable pub available_reviewers : Exec (List String)
  unfolding available_among
  available_reviewers = available_among h.providers

  -- The conversation that the stored job names, if its provider is configured.
  unfoldable pub run_of : String → Option String → Option String → Option (Provider × ProviderRun)
  unfolding find_provider
  run_of name none session_id = none
  run_of name (some conversation_id) session_id = elim (find_provider name) [
    | none ↦ none
    | some p ↦
        if conversation_id == ""
        then none
        else some (
          p,
          record { provider = name; conversation_id = conversation_id; session_id = session_id },
        )
  ]

  abbrev pub in_review : Job → Bool
  in_review job = state_eq job.state JobState.reviewing && not (job.phase == "review-repair")

  unfoldable pub durable_run : Job → Option (Provider × ProviderRun)
  unfolding run_of
  durable_run job =
      if in_review job
      then run_of (get_or job.review_provider "") job.review_conversation_id job.review_session_id
      else run_of job.implementation_provider job.conversation_id job.session_id

  unfoldable pub cancel_run : Provider → ProviderRun → Exec (Unit {0})
  cancel_run p run = send (run_canceled run) (p.cancel run)

  -- `active or self._durable_run(job)`
  unfoldable pub select_run : Job → ℕ → Option (Provider × ProviderRun)
  unfolding durable_run
  select_run job tick = elim (h.active_run job.id tick) [
    | some active ↦ some active
    | none ↦ durable_run job
  ]

  abbrev cancel_quietly : Option (Provider × ProviderRun) → Exec (Unit {0})
  cancel_quietly none = pure tt
  cancel_quietly (some (p, run)) =
      try_except (send (run_canceled run) (p.cancel run)) (λ _. some (pure tt))

  unfoldable pub cancel_active_run : Job → Exec (Unit {0})
  unfolding select_run
  cancel_active_run job w = cancel_quietly (select_run job w.tick) w

  abbrev pub release_lock : String → World → World
  release_lock name w = record w {
    db = release_operation_lock name h.owner w.db;
    tick = suc w.tick;
  }

  -- Labels first, then the comment, whose id is stored when it is a new one.
  unfoldable pub publish_status : Job → Exec (Unit {0})
  publish_status job = do
    send (labels_set job.id job.state) (h.github.set_state_labels job)
    found ← query (get_job_by_id job.id)
    let refreshed = get_or found job
    comment_id ← send (status_commented job.id) (h.github.update_status_comment refreshed)
    if has_comment refreshed.status_comment_id comment_id then pure tt else (do
      commit h.clock
          (λ now db. update_job job.id (set_status_comment_id (some comment_id) ∷ []) now db)
      pure tt)

  -- `except (GitHubError, StaleIssueError): pass`
  abbrev ignore_github : Failure → Option (Exec (Unit {0}))
  ignore_github (github_error text) = some (pure tt)
  ignore_github (stale_issue text) = some (pure tt)
  ignore_github _ = none

  unfoldable pub sync_status : Job → Exec (Unit {0})
  unfolding publish_status
  sync_status job = do
    let name = h.append "status:" job.id
    acquired ← commit_total h.clock (λ now db. acquire_operation_lock name h.owner 900 now db)
    if acquired
        then try_finally (try_except (publish_status job) ignore_github) (release_lock name)
        else pure tt

  -- `self.reports.write(self.store.get_job_by_id(job.id) or job)`
  unfoldable pub report : Job → Exec (Unit {0})
  report job = do
    found ← query (get_job_by_id job.id)
    send (report_written job.id) (h.write_report (get_or found job))

  unfoldable pub finish : Job → Exec Job
  unfolding sync_status
  finish job = do
    found ← query (get_job_by_id job.id)
    let current = get_or found job
    sync_status current
    again ← query (get_job_by_id job.id)
    let latest = get_or again current
    send (report_written job.id) (h.write_report latest)
    pure latest
