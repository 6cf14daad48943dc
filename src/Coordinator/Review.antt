-- ===== src/Coordinator/Review.antt =====
-- `_review` of src/symphony/coordinator.py: the independent review of a draft pull request, and the
-- repairs of the implementer.
pub mod Ends
pub mod Quiet
pub mod Steps
pub mod Turns
pub mod Bounded
use openhands_symphony.Base.{
  ℕ, zero, suc, String, Bool, true, false, not, Option, none, some, [], ◌∷◌, ◌||◌, ◌==◌, string_eq,
  nat_eq, if◌then◌else◌,
}
use openhands_symphony.Models.{JobState, Job}
use openhands_symphony.Store.Schema.{review_detail, pass_detail, other}
use openhands_symphony.Store.Log.{record_event}
use openhands_symphony.Store.Jobs.{
  update_job, set_review_conversation_id, set_review_session_id, set_conversation_id,
  set_session_id, set_phase, set_validation_summary,
}
use openhands_symphony.Store.Transition.{TransitionArgs, no_args, get_or, transition}
use openhands_symphony.Coordinator.Exec.{
  ProviderRun, unexpected, Exec, pure, raise, ◌>>=◌, ◌>>◌, commit, commit_log, ask, send,
  review_posted, pushed, validation_published,
}
use openhands_symphony.Coordinator.Agent.{
  ProviderOutcome, ProviderResult, Provider, review_prompt, repair_prompt,
}
use openhands_symphony.Coordinator.Host.{Host}
use openhands_symphony.Coordinator.Runs.{find_provider}
use openhands_symphony.Coordinator.Intake.{releasing}
use openhands_symphony.Coordinator.Result.{or_text}
use openhands_symphony.Coordinator.Reconcile.{ci_summary, validation_with_ci}
use openhands_symphony.Coordinator.Turn.{
  require_live_lease, provider_slot, start_turn, run_validations,
}

abbrev is_completed : ProviderOutcome → Bool
is_completed ProviderOutcome.completed = true
is_completed _ = false

-- `job.pr_number or 0`
abbrev pub pr_of : Job → ℕ
pr_of job = get_or job.pr_number 0

-- Every event but these three counts as a comment.
unfoldable pub recommendation_of : String → String
recommendation_of event =
    let text = or_text event "comment" in
    if text == "approve" || text == "request-changes" || text == "comment" then text else "comment"

-- `raw.get("substantive_findings") or (1 if recommendation == "request-changes" else 0)`
unfoldable pub findings_of : ℕ → String → ℕ
findings_of count recommendation =
    if count == 0 then (if recommendation == "request-changes" then 1 else 0) else count

module _ (h : Host) where
  -- The end of a review: pr-open; all its calls have arguments that release the lease.
  unfoldable pub end_review : Job → TransitionArgs → Exec Job
  end_review job args = commit h.clock (λ now db. transition job.id JobState.pr_open args now db)

  -- A round that ends the review.
  abbrev pub stopped_with : Job → TransitionArgs → Exec (Option Job × Job)
  stopped_with job args = do stopped ← end_review job args; pure (some stopped, stopped)

  unfoldable pub guard : Job → Exec (Unit {0})
  guard job = ask (h.github.guard_code_mutation job true)

  -- Why an agent cannot take a turn now.
  unfoldable pub unavailable : Provider → Exec (Option String)
  unavailable p = do
    auth ← ask p.auth_status
    health ← ask p.health
    quota ← ask p.quota_or_rate_limit_state
    pure (
        if not auth.authenticated
        then some (h.redact auth.detail 2000)
        else if quota.limited
        then some (h.redact quota.detail 2000)
        else if not health.0
        then some (h.redact health.1 2000)
        else none)

  -- The turn of the reviewer: read only, in review state, under a live lease.
  unfoldable pub review_turn :
      Job
      → Provider
      → (worktree : String) → (repairs : ℕ) → Exec (Job × (ProviderRun × ProviderResult))
  unfolding guard
  review_turn job reviewer worktree repairs = do
    require_live_lease h job
    guard job
    reviewing ← commit h.clock (λ now db.
        transition job.id JobState.reviewing
          (record no_args { phase = some "independent-review"; release_lease = some false }) now db)
    context ← ask (h.github.review_context reviewing.repository (pr_of reviewing))
    provider_slot h reviewing reviewer
    run ←
        start_turn h reviewing reviewer worktree (review_prompt reviewing context)
          (h.review_run_id reviewing.id repairs) true
    updated ← commit h.clock (λ now db.
        update_job reviewing.id
          (set_review_conversation_id (some run.conversation_id)
            ∷ set_review_session_id run.session_id
            ∷ [])
          now db)
    result ← ask (reviewer.wait run)
    pure (updated, (run, result))

  -- The review is posted as a comment, whatever it recommends.
  unfoldable pub post_review :
      Job → Provider → ProviderRun → ProviderResult → (recommendation : String) → Exec String
  unfolding guard
  post_review job reviewer run result recommendation = do
    require_live_lease h job
    guard job
    let body = h.review_body result.summary reviewer.name run.conversation_id recommendation
    send (review_posted job.id) (h.github.post_review job.repository (pr_of job) body "comment")
    commit_log h.clock (λ now db.
        record_event job.id "github-review"
          (review_detail reviewer.name "comment" recommendation run.conversation_id) now db)
    pure body

  -- The turn of the implementer that repairs the findings.
  unfoldable pub repair_turn :
      Job
      → Provider
      → (worktree : String) → (repairs : ℕ) → (review_body : String) → Exec (Job × ProviderResult)
  repair_turn job implementer worktree repairs review_body = do
    provider_slot h job implementer
    run ←
        start_turn h job implementer worktree (repair_prompt review_body)
          (h.repair_run_id job.id repairs) false
    updated ← commit h.clock (λ now db.
        update_job job.id
          (set_conversation_id (some run.conversation_id)
            ∷ set_session_id run.session_id
            ∷ set_phase "review-repair"
            ∷ [])
          now db)
    result ← ask (implementer.wait run)
    pure (updated, result)

  unfoldable pub push_repair : Job → (worktree : String) → Exec (Unit {0})
  unfolding guard
  push_repair job worktree = do
    changed ← ask (h.workspaces.has_changes worktree)
    if not changed then pure tt else (do
      ask (h.workspaces.verify_integrity job worktree)
      ask (h.workspaces.commit_changes worktree job.issue_number)
      require_live_lease h job
      guard job
      send (pushed job.id) (h.workspaces.push worktree job.repository job.branch))

  unfoldable pub publish_repair : Job → (summary : String) → (repairs : ℕ) → Exec Job
  publish_repair job summary repairs = do
    checks ← ask (h.github.pr_checks job.repository (pr_of job))
    updated ← commit h.clock (λ now db.
        update_job job.id (set_validation_summary (validation_with_ci h summary checks) ∷ []) now
          db)
    commit_log h.clock
        (λ now db. record_event updated.id "ci-observed" (other (ci_summary h checks)) now db)
    require_live_lease h updated
    send (validation_published updated.id) (h.github.update_pr_validation updated)
    commit_log h.clock
        (λ now db. record_event updated.id "review-repair" (pass_detail repairs) now db)
    pure updated

  unfoldable pub after_repair :
      Job → (worktree : String) → (repairs : ℕ) → ProviderResult → Exec (Option Job × Job)
  unfolding push_repair publish_repair end_review
  after_repair job worktree repairs result =
      if not (is_completed result.outcome)
      then stopped_with job (
          releasing "review-repair-failed"
            "A reviewer repair pass failed; the original PR remains available.")
      else (do
        verdict ← run_validations h job worktree
        if not verdict.0.0
            then stopped_with job
                (record (releasing "review-repair-validation-failed"
                  "Review repairs failed required validation; the PR remains open.") {
                    validation_summary = some verdict.0.1;
                  })
            else (do
              push_repair job worktree
              updated ← publish_repair job verdict.0.1 repairs
              pure (none, updated)))

  unfoldable pub repair_unless :
      Job
      → Provider
      → (worktree : String) → (repairs : ℕ) → (review_body : String) → Option String
      → Exec (Option Job × Job)
  unfolding repair_turn after_repair end_review
  repair_unless job implementer worktree repairs review_body (some detail) = stopped_with job (
      releasing "review-repair-provider-unavailable"
        (h.append "Review findings remain, but the implementer is unavailable: " detail))
  repair_unless job implementer worktree repairs review_body none = do
    turn ← repair_turn job implementer worktree repairs review_body
    after_repair turn.0 worktree repairs turn.1

  -- A repair that ends the review, or the job with which the next round starts.
  unfoldable pub repair :
      Job → (worktree : String) → (repairs : ℕ) → (review_body : String) → Exec (Option Job × Job)
  unfolding guard unavailable repair_unless find_provider
  repair job worktree repairs review_body = elim (find_provider h job.implementation_provider) [
    | none ↦ raise (unexpected "KeyError")
    | some implementer ↦ do
      guard job
      reason ← unavailable implementer
      repair_unless job implementer worktree repairs review_body reason
  ]

  -- A failed or unstructured answer, which ends the review: its phase and its message.
  unfoldable pub rejected : Job → ProviderResult → Option (String × String)
  rejected job result =
      if not (is_completed result.outcome)
      then some (
        "review-failed",
        h.append "Independent review failed without hiding the PR: "
            (h.redact (or_text result.question_or_reason result.summary) 4000),
      )
      else elim result.review_event [
        | none ↦ some (
          "review-unstructured",
          "Independent review did not return the required structured recommendation/findings; the draft PR is preserved for retry or human review.",
        )
        | some event ↦ elim result.substantive_findings [
          | none ↦ some (
            "review-unstructured",
            "Independent review did not return the required structured recommendation/findings; the draft PR is preserved for retry or human review.",
          )
          | some count ↦ none
        ]
      ]

  -- The review is posted; without findings, or without a repair left, it is over.
  unfoldable pub accept_review :
      Job
      → Provider
      → (worktree : String) → (last : Bool) → (repairs : ℕ) → ProviderRun
      → ProviderResult
      → Exec (Option Job × Job)
  unfolding post_review repair end_review recommendation_of findings_of
  accept_review job reviewer worktree last repairs run result = do
    let recommendation = recommendation_of (get_or result.review_event "")
    body ← post_review job reviewer run result recommendation
    if findings_of (get_or result.substantive_findings 0) recommendation == 0
        then stopped_with job
            (record no_args { phase = some "review-complete"; release_lease = some true })
        else if last
        then stopped_with job (
            releasing "review-repair-limit"
              "Review findings remain after the bounded repair limit; the draft PR is preserved for human action.")
        else repair job worktree (suc repairs) body

  -- One round: `some job` ends the review, `none` goes on with the job of the pair. `last` says that
  -- the bound on repairs is reached.
  unfoldable pub review_round :
      Job → Provider → (worktree : String) → (last : Bool) → (repairs : ℕ) → Exec (Option Job × Job)
  unfolding review_turn accept_review rejected end_review
  review_round job reviewer worktree last repairs = do
    turn ← review_turn job reviewer worktree repairs
    elim (rejected turn.0 turn.1.1) [
      | some (phase, message) ↦ stopped_with turn.0 (releasing phase message)
      | none ↦ accept_review turn.0 reviewer worktree last repairs turn.1.0 turn.1.1
    ]

  -- The job that ended the review, or else the rounds that follow.
  abbrev pub or_stopped : Option Job → Exec Job → Exec Job
  or_stopped (some stopped) rest = pure stopped
  or_stopped none rest = rest

  -- `while True`, by the number of repairs that are left: `repairs >= max_review_repairs` holds when
  -- none is.
  unfoldable pub review_rounds :
      Job → Provider → (worktree : String) → (repairs_left : ℕ) → (repairs : ℕ) → Exec Job
  unfolding review_round
  review_rounds job reviewer worktree zero repairs = do
    turn ← review_round job reviewer worktree true repairs
    pure (get_or turn.0 turn.1)
  review_rounds job reviewer worktree (suc repairs_left) repairs = do
    turn ← review_round job reviewer worktree false repairs
    or_stopped turn.0 (review_rounds turn.1 reviewer worktree repairs_left (suc repairs))

  abbrev pub no_reviewer : Job → Exec Job
  no_reviewer job = end_review job (
      releasing "review-unavailable"
        "Implementation PR is available, but the configured independent reviewer is unavailable.")

  abbrev pub review_unless : Job → Provider → (worktree : String) → Option String → Exec Job
  review_unless job reviewer worktree (some detail) = end_review job (
      releasing "review-unavailable"
        (h.append "Implementation PR is preserved; independent review is unavailable: " detail))
  review_unless job reviewer worktree none =
      review_rounds job reviewer worktree h.config.max_review_repairs 0

  unfoldable pub review : Job → (worktree : String) → Exec Job
  unfolding review_rounds unavailable end_review find_provider
  review job worktree =
      let name = get_or job.review_provider "" in
      elim (find_provider h name) [
        | none ↦ no_reviewer job
        | some reviewer ↦
            if name == "" || not reviewer.supports_review
            then no_reviewer job
            else (do reason ← unavailable reviewer; review_unless job reviewer worktree reason)
      ]
