-- ===== src/Coordinator/Reconcile.antt =====
-- `reconcile` and the CI summary of src/symphony/coordinator.py.
use openhands_symphony.Base.{
  ℕ, String, Bool, true, false, not, Option, none, some, List, [], ◌∷◌, ◌++◌, ◌||◌, ◌==◌, string_eq,
  if◌then◌else◌,
}
use openhands_symphony.Models.{JobState, state_value, IssueSnapshot, Job}
use openhands_symphony.Store.Schema.{other, integrity_error}
use openhands_symphony.Store.Log.{record_event}
use openhands_symphony.Store.Jobs.{list_jobs, update_job, set_validation_summary}
use openhands_symphony.Store.Transition.{no_args, transition}
use openhands_symphony.Store.Control.{Command, command_text}
use openhands_symphony.Intake.{take}
use openhands_symphony.Coordinator.Exec.{
  validation_published, Failure, store_error, stale_issue, github_error, intake_error, Exec, pure,
  ◌>>=◌, ◌>>◌, query, try_except, commit, commit_log, ask, send,
}
use openhands_symphony.Coordinator.Host.{Check, Rollup, Host}
use openhands_symphony.Coordinator.Runs.{sync_status, report}
use openhands_symphony.Coordinator.Intake.{enqueue}
use openhands_symphony.Coordinator.Command.{apply_control_comment}
use openhands_symphony.Coordinator.Recovery.{Recovered, has_number, recover_expired_leases}
use openhands_symphony.Coordinator.Result.{or_text}

-- Python's `a or b or c` on values that may be absent.
abbrev first_of : List (Option String) → String → String
first_of [] d = d
first_of (none ∷ rest) d = first_of rest d
first_of (some a ∷ rest) d = if a == "" then first_of rest d else a

abbrev note_of : String → ℕ → String → List Recovered
note_of repository number note =
    record { repository = repository; issue_number = number; note = note } ∷ []

module _ (h : Host) where
  -- `", ".join(f"{name}={state}" ...)`
  unfoldable pub checks_text : List (Option Check) → String
  checks_text [] = ""
  checks_text (none ∷ rest) = checks_text rest
  checks_text (some c ∷ rest) =
      let name = first_of (c.name ∷ c.context ∷ []) "check" in
      let state = first_of (c.conclusion ∷ c.state ∷ c.status ∷ []) "UNKNOWN" in
      let mine = h.append name (h.append "=" state) in
      let others = checks_text rest in
      if others == "" then mine else h.append mine (h.append ", " others)

  unfoldable pub ci_summary : Rollup → String
  unfolding checks_text
  ci_summary none = "not reported"
  ci_summary (some items) = or_text (checks_text (take 20 items)) "not reported"

  unfoldable pub validation_with_ci : String → Rollup → String
  unfolding ci_summary
  validation_with_ci validation_summary checks =
      h.append (h.before "; CI:" validation_summary) (h.append "; CI: " (ci_summary checks))

  unfoldable pub observe_merged : Job → ℕ → Exec (List Recovered)
  observe_merged job pr_number = do
    moved ← commit h.clock (λ now db.
        transition job.id JobState.done
          (record no_args {
            phase = some "merged";
            terminal_reason = some (
                h.append "Pull request #"
                  (h.append (h.encode (h.digits pr_number)) " was merged by a human."));
          })
          now db)
    sync_status h moved
    report h moved
    pure (note_of moved.repository moved.issue_number "done: merged")

  unfoldable pub observe_ci : Job → ℕ → Exec (List Recovered)
  unfolding ci_summary validation_with_ci
  observe_ci job pr_number = do
    checks ← ask (h.github.pr_checks job.repository pr_number)
    let summary = validation_with_ci job.validation_summary checks
    if summary == job.validation_summary then pure tt else (do
      updated ←
          commit h.clock (λ now db. update_job job.id (set_validation_summary summary ∷ []) now db)
      commit_log h.clock
          (λ now db. record_event updated.id "ci-observed" (other (ci_summary checks)) now db)
      send (validation_published updated.id) (h.github.update_pr_validation updated)
      sync_status h updated
      report h updated)
    pure (note_of job.repository job.issue_number (h.append "ci: " (ci_summary checks)))

  -- StaleIssueError is a GitHubError.
  abbrev is_github : Failure → Bool
  is_github (github_error text) = true
  is_github (stale_issue text) = true
  is_github _ = false

  abbrev is_intake : Failure → Bool
  is_intake (intake_error text) = true
  is_intake _ = false

  -- `integrity_error` is an exception of sqlite3.
  abbrev is_store : Failure → Bool
  is_store (store_error integrity_error) = false
  is_store (store_error e) = true
  is_store _ = false

  abbrev on_pr_error : Job → Failure → Option (Exec (List Recovered))
  on_pr_error job f =
      if is_github f
      then some (
          pure (
            note_of job.repository job.issue_number
              (h.append "pr-status-error: " (h.message_text f))))
      else none

  -- One job with an open pull request.
  unfoldable pub observe_pr : Job → Exec (List Recovered)
  unfolding observe_merged observe_ci
  observe_pr job = elim job.pr_number [
    | none ↦ pure []
    | some pr_number ↦
        if not (has_number (some pr_number))
        then pure []
        else try_except
            (do
              merged ← ask (h.github.is_merged job.repository pr_number)
              if merged then observe_merged job pr_number else observe_ci job pr_number)
            (on_pr_error job)
  ]

  unfoldable pub observe_prs : List Job → Exec (List Recovered)
  unfolding observe_pr
  observe_prs [] = pure []
  observe_prs (job ∷ jobs) = do mine ← observe_pr job; rest ← observe_prs jobs; pure (mine ++ rest)

  -- The answer false ends the loop of a repository: the exception was one of the outer `except`.
  abbrev on_intake_error : String → ℕ → Failure → Option (Exec (Bool × List Recovered))
  on_intake_error repository number f =
      if is_intake f
      then some
          (pure (true, note_of repository number (h.append "ineligible: " (h.message_text f))))
      else if is_github f
      then some (pure (false, note_of repository 0 (h.append "github-error: " (h.message_text f))))
      else none

  unfoldable pub take_ready : String → List IssueSnapshot → Exec (List Recovered)
  take_ready repository [] = pure []
  take_ready repository (snapshot ∷ rest) = do
    found ←
        try_except
          (do
            taken ← enqueue h snapshot
            pure (
              true,
              note_of repository snapshot.number
                  (if taken.1 then "created" else state_value taken.0.state),
            ))
          (on_intake_error repository snapshot.number)
    if found.0
        then (do others ← take_ready repository rest; pure (found.1 ++ others))
        else pure found.1

  abbrev on_list_error : String → Failure → Option (Exec (List Recovered))
  on_list_error repository f =
      if is_github f
      then some (pure (note_of repository 0 (h.append "github-error: " (h.message_text f))))
      else none

  abbrev on_command_error {ℓ} :
      {A : Type ℓ} → A → String → Failure → Option (Exec (A × List Recovered))
  on_command_error stopped repository f =
      if is_github f || is_store f || is_intake f
      then some (
          pure (
            stopped,
            note_of repository 0 (h.append "command-reconcile-error: " (h.message_text f)),
          ))
      else none

  unfoldable pub apply_commands : String → List ((ℕ × ℕ) × Command) → Exec (List Recovered)
  apply_commands repository [] = pure []
  apply_commands repository ((comment, command) ∷ rest) = do
    found ←
        try_except
          (do
            answer ← apply_control_comment h repository comment.0 comment.1 command
            pure (
              true,
              (if answer.1
                  then note_of repository comment.0
                      (h.append "recovered command: " (command_text command))
                  else []),
            ))
          (on_command_error false repository)
    if found.0
        then (do others ← apply_commands repository rest; pure (found.1 ++ others))
        else pure found.1

  unfoldable pub list_commands : String → Exec (List ((ℕ × ℕ) × Command) × List Recovered)
  list_commands repository =
      try_except
        (do commands ← ask (h.github.list_control_commands repository); pure (commands, []))
        (on_command_error [] repository)

  -- One allowed repository: its ready issues, then the commands that no webhook brought.
  unfoldable pub reconcile_repository : String → Exec (List Recovered)
  unfolding take_ready list_commands apply_commands
  reconcile_repository repository = do
    issues ←
        try_except
          (do ready ← ask (h.github.list_ready_issues repository); take_ready repository ready)
          (on_list_error repository)
    listed ← list_commands repository
    applied ← apply_commands repository listed.0
    pure (issues ++ (listed.1 ++ applied))

  unfoldable pub reconcile_repositories : List String → Exec (List Recovered)
  unfolding reconcile_repository
  reconcile_repositories [] = pure []
  reconcile_repositories (r ∷ rs) = do
    mine ← reconcile_repository r
    rest ← reconcile_repositories rs
    pure (mine ++ rest)

  unfoldable pub reconcile : Exec (List Recovered)
  unfolding observe_prs reconcile_repositories
  reconcile = do
    recovered ← recover_expired_leases h
    jobs ← query (list_jobs (some (JobState.pr_open ∷ [])))
    observed ← observe_prs jobs
    rest ← reconcile_repositories h.config.allowed_repositories
    pure (recovered ++ (observed ++ rest))
