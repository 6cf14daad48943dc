-- ===== src/Coordinator/Intake.antt =====
-- `_halt_ineligible` and `enqueue` of src/symphony/coordinator.py.
use openhands_symphony.Base.{
  String, Bool, true, false, not, Option, none, some, [], ◌∷◌, ◌&&◌, ◌||◌, ◌==◌, string_eq, nat_eq,
  ltb, if◌then◌else◌,
}
use openhands_symphony.Models.{JobState, state_eq, is_active, IssueSnapshot, content_hash, Job}
use openhands_symphony.Store.Jobs.{
  Routing, get_job, get_job_by_id, ensure_job, update_snapshot_if_unclaimed, update_job,
  set_actionable_message, set_pr_number, set_pr_url, set_phase,
}
use openhands_symphony.Store.Transition.{TransitionArgs, no_args, get_or, transition}
use openhands_symphony.Store.Control.{cancel, pause, request_control}
use openhands_symphony.Config.{concurrency_key, slots}
use openhands_symphony.Intake.{contains, codes, RoutingDecision, route, branch_name}
use openhands_symphony.Coordinator.Exec.{
  intake_error, unexpected, Exec, pure, raise, ◌>>=◌, ◌>>◌, query, commit, commit_total, ask,
}
use openhands_symphony.Coordinator.Agent.{Provider}
use openhands_symphony.Coordinator.Host.{PullRequest, Host}
use openhands_symphony.Coordinator.Runs.{
  find_provider, available_reviewers, cancel_active_run, sync_status, report,
}

-- `{JobState.QUEUED, JobState.RUNNING, JobState.REVIEWING}`
unfoldable pub is_in_flight : JobState → Bool
is_in_flight JobState.queued = true
is_in_flight JobState.running = true
is_in_flight JobState.reviewing = true
is_in_flight _ = false

abbrev pub opt_eq : Option String → Option String → Bool
opt_eq none none = true
opt_eq (some a) (some b) = a == b
opt_eq _ _ = false

abbrev pub bool_eq : Bool → Bool → Bool
bool_eq true b = b
bool_eq false b = not b

-- The arguments of a transition with a phase and a message.
abbrev pub with_message : String → String → TransitionArgs
with_message phase message = record no_args {
  phase = some phase;
  actionable_message = some message;
}

-- and of one that gives the lease up.
abbrev pub releasing : String → String → TransitionArgs
releasing phase message = record (with_message phase message) { release_lease = some true }

module _ (h : Host) where
  unfoldable pub halt_found : Job → String → Option Job → Exec (Unit {0})
  halt_found job reason none = pure tt
  halt_found job reason (some stopped) = do
    halted ← commit h.clock (λ now db.
        update_job stopped.id
          (set_actionable_message (
              h.append "Autonomous work stopped after live issue revalidation: "
                (h.redact reason 2000))
            ∷ [])
          now db)
    cancel_active_run h job
    if is_active halted.state then pure tt else (do sync_status h halted; report h halted)

  unfoldable pub halt_ineligible : Job → IssueSnapshot → String → Exec (Unit {0})
  unfolding halt_found
  halt_ineligible job snapshot reason = do
    let command = if h.lower snapshot.state == "open" then pause else cancel
    found ←
        commit h.clock
          (λ now db. request_control h.search_in job.repository job.issue_number command now db)
    halt_found job reason found

  -- The issue was claimed with another specification or routing than it has now.
  unfoldable pub has_drifted : Job → IssueSnapshot → Routing → Bool
  has_drifted existing snapshot routing =
      not (existing.content_hash == content_hash h.hashing snapshot)
      || not (existing.implementation_provider == routing.implementation_provider)
      || not (opt_eq existing.review_provider routing.review_provider)
      || not (bool_eq existing.review_required routing.review_required)
      || not (existing.concurrency_key == routing.concurrency_key)

  -- The work on a job that is in flight is halted, and the intake is refused.
  unfoldable pub refuse_intake : Option Job → IssueSnapshot → String → String → Exec (Job × Bool)
  unfolding halt_ineligible is_in_flight
  refuse_intake none snapshot reason message = raise (intake_error message)
  refuse_intake (some existing) snapshot reason message =
      if is_in_flight existing.state
      then halt_ineligible existing snapshot reason >> raise (intake_error message)
      else raise (intake_error message)

  -- An issue that has its job already.
  unfoldable pub enqueue_existing : Job → IssueSnapshot → Routing → Exec (Job × Bool)
  unfolding halt_ineligible is_in_flight has_drifted
  enqueue_existing existing snapshot routing = do
    if state_eq existing.state JobState.queued && existing.attempt == 0
        then (do
          commit_total h.clock
              (λ now db. update_snapshot_if_unclaimed h.hashing snapshot routing now db)
          pure tt)
        else if is_in_flight existing.state && has_drifted existing snapshot routing
        then (do
          halt_ineligible existing snapshot "issue specification or routing changed after claim"
          raise {A = Unit {0}} (
              intake_error
                "issue specification or routing changed after claim; explicitly resume to accept it"))
        else pure tt
    found ← query (get_job_by_id existing.id)
    pure (get_or found existing, false)

  -- `transition` to needs-guidance, and the status.
  unfoldable pub stop_new : Job → Bool → String → String → Exec (Job × Bool)
  stop_new job created phase message = do
    moved ←
        commit h.clock
          (λ now db. transition job.id JobState.needs_guidance (with_message phase message) now db)
    sync_status h moved
    pure (moved, created)

  unfoldable pub adopt_pr : Job → Bool → PullRequest → Exec (Job × Bool)
  adopt_pr job created pr = do
    updated ← commit h.clock (λ now db.
        update_job job.id
          (set_pr_number (some pr.number)
            ∷ set_pr_url (some pr.url)
            ∷ set_phase "adopted-existing-pr"
            ∷ [])
          now db)
    moved ← commit h.clock (λ now db.
        transition updated.id JobState.pr_open
          (record no_args {
            actionable_message = some "Existing implementation PR adopted safely.";
          })
          now db)
    sync_status h moved
    pure (moved, created)

  -- The reviewer of a new job: it must be configured, able, given a slot and logged in.
  unfoldable pub check_reviewer : Job → Bool → String → Exec (Job × Bool)
  unfolding stop_new
  check_reviewer job created name = elim (find_provider h name) [
    | none ↦
        stop_new job created "review-authentication-required"
          (h.append name " review is unavailable: review provider is not configured")
    | some p ↦ do
      auth ← ask p.auth_status
      if p.autonomous_available
            && p.supports_review
            && ltb 0 (slots h.config.provider_concurrency name)
            && auth.authenticated
          then (do sync_status h job; pure (job, created))
          else stop_new job created "review-authentication-required"
              (h.append name (h.append " review is unavailable: " (h.redact auth.detail 2000)))
  ]

  unfoldable pub check_auth : Job → Bool → Routing → Provider → Exec (Job × Bool)
  unfolding stop_new check_reviewer
  check_auth job created routing p = do
    auth ← ask p.auth_status
    if not (auth.available && auth.authenticated)
        then stop_new job created "authentication-required" (
            h.append routing.implementation_provider
              (h.append " authentication is unavailable: " (h.redact auth.detail 2000)))
        else elim routing.review_provider [
          | some name ↦
              if routing.review_required && not (name == "")
              then check_reviewer job created name
              else (do sync_status h job; pure (job, created))
          | none ↦ do sync_status h job; pure (job, created)
        ]

  -- The provider of a new job: it must be configured, able, given a slot and logged in.
  unfoldable pub check_provider : Job → Bool → Routing → Exec (Job × Bool)
  unfolding stop_new check_auth
  check_provider job created routing = elim (find_provider h routing.implementation_provider) [
    | none ↦ stop_new job created "provider-unavailable" "provider is not configured"
    | some p ↦
        if not p.autonomous_available
        then stop_new job created "provider-unavailable" p.limitation
        else if not (ltb 0 (slots h.config.provider_concurrency routing.implementation_provider))
        then stop_new job created "provider-disabled" (
            h.append routing.implementation_provider " has a configured concurrency limit of zero.")
        else check_auth job created routing p
  ]

  unfoldable pub enqueue_new : IssueSnapshot → Routing → Exec (Job × Bool)
  unfolding adopt_pr stop_new check_provider
  enqueue_new snapshot routing = do
    open_pr ← ask (h.github.find_open_pr snapshot.repository routing.branch)
    remote ← ask (h.github.remote_branch_exists snapshot.repository routing.branch)
    id ← (λ w. pure (h.new_id w.tick) w)
    new ← commit h.clock (λ now db. ensure_job h.hashing id snapshot routing now db)
    let job = new.0
    let created = new.1
    elim open_pr [
      | some pr ↦ adopt_pr job created pr
      | none ↦
          if remote
          then stop_new job created "orphan-branch" (
              h.append "Generated branch `" (
                h.append routing.branch
                  "` already exists without an open PR; inspect it and use /agent retry."))
          else check_provider job created routing
    ]

  unfoldable pub enqueue_routed :
      Option Job → IssueSnapshot → RoutingDecision → String → Exec (Job × Bool)
  unfolding refuse_intake enqueue_existing enqueue_new
  enqueue_routed existing snapshot decision implementation =
      elim (concurrency_key h.join h.config snapshot.repository snapshot.labels) [
        | none ↦
            refuse_intake existing snapshot
              "exactly one configured concurrency-scope label is required"
              "exactly one configured concurrency-scope label is required"
        | some key ↦ elim (branch_name h.unicode h.digits snapshot.number (codes snapshot.title)) [
          | none ↦ raise (unexpected "issue number must be positive")
          | some branch ↦
              let routing : Routing = record {
                implementation_provider = implementation;
                review_provider = decision.review_provider;
                review_required = decision.review_required;
                branch = h.encode branch;
                concurrency_key = key;
              } in
              elim existing [
                | some job ↦ enqueue_existing job snapshot routing
                | none ↦ enqueue_new snapshot routing
              ]
        ]
      ]

  -- The reason of a refused routing, or the text that stands in for an empty one.
  abbrev or_not_eligible : String → String
  or_not_eligible reason = if reason == "" then "live issue is no longer eligible" else reason

  unfoldable pub enqueue : IssueSnapshot → Exec (Job × Bool)
  unfolding refuse_intake enqueue_routed
  enqueue snapshot =
      if not (contains h.config.allowed_repositories snapshot.repository)
      then raise (intake_error (h.append "repository is not allowlisted: " snapshot.repository))
      else if h.config.private_only && not snapshot.private
      then raise (intake_error "public repositories are disabled")
      else (do
        existing ← query (get_job snapshot.repository snapshot.number)
        available ← available_reviewers h
        let decision = route h.lower snapshot available
        elim decision.implementation_provider [
          | none ↦ refuse_intake existing snapshot (or_not_eligible decision.reason) decision.reason
          | some implementation ↦
              if decision.eligible && not (implementation == "")
              then enqueue_routed existing snapshot decision implementation
              else refuse_intake existing snapshot (or_not_eligible decision.reason) decision.reason
        ])
