-- ===== src/Github/Reads.antt =====
-- The reads and the guards of src/symphony/github.py.
pub mod Guarded
use openhands_symphony.Base.{
  ℕ, zero, suc, String, Bool, true, false, not, Option, none, some, List, [], ◌∷◌, ◌&&◌, ◌||◌, ◌==◌,
  ltb, string_eq, nat_eq, if◌then◌else◌, order_by, string_ltb, map,
}
use openhands_symphony.Models.{JobState, state_eq, IssueSnapshot, Job, content_hash, exited}
use openhands_symphony.Intake.{codes, contains, RoutingDecision, route}
use openhands_symphony.Intake.Control.{is_valid_repository, parse_control_command}
use openhands_symphony.Store.Transition.{get_or}
use openhands_symphony.Coordinator.Exec.{
  Outcome, returned, github_error, stale_issue, unexpected, pure, raise, ◌>>=◌, ◌>>◌,
}
use openhands_symphony.Coordinator.Intake.{opt_eq, bool_eq}
use openhands_symphony.Github.Api.{
  IssueRow, RepositoryRow, PullRequest, CommentRow, Pages, Client, Gh, fetch,
}

-- `str(value or default)`
abbrev pub text_or : Option String → String → String
text_or none default = default
text_or (some value) default = if value == "" then default else value

-- `{job.review_provider} if job.review_provider else set()`
abbrev pub own_reviewer : Job → List String
own_reviewer job = elim job.review_provider [
  | none ↦ []
  | some name ↦ if name == "" then [] else name ∷ []
]

module _ (c : Client) where
  -- `_allowed`; the ValueError of `validate_repository_name` is no GitHubError.
  unfoldable pub check_allowed : (repository : String) → Gh (Unit {0})
  check_allowed repository =
      if not (is_valid_repository (codes repository))
      then raise (unexpected "ValueError")
      else if contains c.allowlist repository
      then pure tt
      else raise (github_error (c.append "repository is not allowlisted: " repository))

  abbrev pub snapshot_of : (repository : String) → IssueRow → RepositoryRow → IssueSnapshot
  snapshot_of repository issue repo = record {
    repository = repository;
    number = issue.number;
    title = text_or issue.title "";
    body = text_or issue.body "";
    state = text_or issue.state "";
    labels = order_by string_ltb issue.labels;
    updated_at = text_or issue.updated_at "";
    private = repo.private;
    default_branch = text_or repo.default_branch "main";
  }

  unfoldable pub get_issue : (repository : String) → (issue_number : ℕ) → Gh IssueSnapshot
  unfolding check_allowed
  get_issue repository issue_number = do
    check_allowed repository
    if ltb issue_number 1 then raise (github_error "issue number must be positive") else (do
      issue ← fetch (c.api.issue repository issue_number)
      if issue.is_pull_request then raise (github_error "a pull request, not an issue") else (do
        repo ← fetch (c.api.repository repository)
        if c.private_only && not repo.private
            then raise (github_error (c.append "public repositories are disabled: " repository))
            else pure (snapshot_of repository issue repo)))

  -- The issues are read one by one.
  unfoldable pub get_issues : (repository : String) → List ℕ → Gh (List IssueSnapshot)
  unfolding get_issue
  get_issues repository [] = pure []
  get_issues repository (n ∷ ns) = do
    issue ← get_issue repository n
    rest ← get_issues repository ns
    pure (issue ∷ rest)

  unfoldable pub list_ready_issues : (repository : String) → Gh (List IssueSnapshot)
  unfolding get_issues check_allowed
  list_ready_issues repository = do
    check_allowed repository
    numbers ← fetch (c.api.ready_issues repository)
    get_issues repository numbers

  unfoldable pub find_open_pr : (repository branch : String) → Gh (Option PullRequest)
  unfolding check_allowed
  find_open_pr repository branch = do
    check_allowed repository
    rows ← fetch (c.api.open_prs repository branch)
    pure (elim rows [ [] ↦ none | row ∷ _ ↦ some row ])

  unfoldable pub remote_branch_exists : (repository branch : String) → Gh Bool
  unfolding check_allowed
  remote_branch_exists repository branch = do
    check_allowed repository
    code ← fetch (λ tick. returned (c.api.branch_ref repository branch tick))
    elim code [
      | exited zero ↦ pure true
      | exited (suc zero) ↦ pure false
      | _ ↦ raise (github_error "unable to check generated branch")
    ]

  unfoldable pub live_issue_guard : Job → Gh IssueSnapshot
  unfolding get_issue
  live_issue_guard job = do
    live ← get_issue job.repository job.issue_number
    if c.lower live.state == "open" then pure live else raise (stale_issue "issue was closed")

  -- A job that is done may have a closed issue.
  unfoldable pub check_live : Job → JobState → Gh (Unit {0})
  check_live job state =
      if state_eq state JobState.done
      then (do get_issue job.repository job.issue_number; pure tt)
      else (do live_issue_guard job; pure tt)

  unfoldable pub live_control_guard : Job → Gh IssueSnapshot
  unfolding live_issue_guard
  live_control_guard job = do
    live ← live_issue_guard job
    if contains live.labels "agent:paused" || contains live.labels "agent:manual-only"
        then raise (stale_issue "issue is paused or manual-only")
        else pure live

  unfoldable pub routing_differs : Job → RoutingDecision → Bool
  routing_differs job decision =
      not decision.eligible
      || not (opt_eq decision.implementation_provider (some job.implementation_provider))
      || not (bool_eq decision.review_required job.review_required)
      || not (opt_eq decision.review_provider job.review_provider)

  -- `pr and pr.number != job.pr_number`
  abbrev pub is_foreign : Job → Option PullRequest → Bool
  is_foreign job none = false
  is_foreign job (some pr) = elim job.pr_number [ none ↦ true | some n ↦ not (pr.number == n) ]

  unfoldable pub guard_code_mutation : Job → (allow_existing_branch : Bool) → Gh IssueSnapshot
  unfolding live_control_guard routing_differs find_open_pr remote_branch_exists
  guard_code_mutation job allow_existing_branch = do
    live ← live_control_guard job
    if not (content_hash c.hashing live == job.content_hash)
        then raise (stale_issue "issue title or body changed after claim")
        else if routing_differs job (route c.lower live (own_reviewer job))
        then raise (stale_issue "routing changed after claim")
        else (do
          pr ← find_open_pr job.repository job.branch
          if is_foreign job pr
              then raise (stale_issue "an implementation PR already exists")
              else if allow_existing_branch
              then pure live
              else (do
                exists ← remote_branch_exists job.repository job.branch
                if exists
                    then raise
                        (stale_issue (c.append "generated branch already exists: " job.branch))
                    else pure live))
