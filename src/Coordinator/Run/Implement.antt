-- ===== src/Coordinator/Run/Implement.antt =====
-- The implementation turn and its corrections (`_run_claimed` of src/symphony/coordinator.py).
use openhands_symphony.Base.{
  ℕ, zero, suc, String, Bool, false, not, Option, none, some, List, [], ◌∷◌, ◌&&◌, ◌==◌, string_eq,
  if◌then◌else◌,
}
use openhands_symphony.Models.{JobState, IssueSnapshot, ValidationResult, validation_ok, Job}
use openhands_symphony.Store.Schema.{pass_detail}
use openhands_symphony.Store.Log.{record_validation, record_event}
use openhands_symphony.Store.Jobs.{
  begin_attempt, set_worktree, set_phase, set_conversation_id, set_session_id,
  set_validation_summary,
}
use openhands_symphony.Store.Transition.{TransitionArgs, no_args, get_or}
use openhands_symphony.Config.{lookup_repository}
use openhands_symphony.Coordinator.Exec.{
  ProviderRun, Exec, pure, ◌>>=◌, ◌>>◌, commit, commit_log, ask,
}
use openhands_symphony.Coordinator.Agent.{
  ProviderResult, Provider, Prompt, implementation_prompt, guidance_prompt, correction_prompt,
}
use openhands_symphony.Coordinator.Host.{Host}
use openhands_symphony.Coordinator.Runs.{sync_status, finish}
use openhands_symphony.Coordinator.Recovery.{has_text}
use openhands_symphony.Coordinator.Result.{transition_from_provider_result}
use openhands_symphony.Coordinator.Turn.{
  provider_slot, start_turn, resume_turn, run_validations, has_substantive_implementation,
}
use openhands_symphony.Coordinator.Run.Failure.{with_terminal}
use openhands_symphony.Coordinator.Run.Steps.{assign_job, mark_started, updated, stop}

-- `a or b` on optional texts
abbrev pub or_else : Option String → Option String → Option String
or_else none b = b
or_else (some a) b = if a == "" then b else some a

-- A part of the run that either ended it, with the finished job, or goes on with a value.
pub data Step {ℓ} (A : Type ℓ) : Type ℓ where
  ended : Job → Step A
  goes_on : A → Step A

-- What a round of corrections sees.
pub record Inspection : Type 0 where
  pub job : Job
  pub is_valid : Bool
  pub is_substantive : Bool
  pub validation_summary : String
  pub results : List ValidationResult
  pub changed_paths : List String

module _ (h : Host) where
  -- Worktree and setup script; the worktree, if the run goes on.
  unfoldable pub set_up : Job → IssueSnapshot → Exec (Step (Job × String))
  set_up job live = do
    worktree ← ask (h.workspaces.checkout job live)
    current ← updated h job (set_worktree (some worktree) ∷ set_phase "setup" ∷ [])
    ask (h.workspaces.prepare_for_agent worktree)
    ask (h.workspaces.verify_integrity current worktree)
    ran ← ask (h.workspaces.run_setup worktree current.repository)
    elim ran [
      | none ↦ do
        ask (h.workspaces.verify_integrity current worktree)
        pure (goes_on (current, worktree))
      | some result ↦ do
        commit_log h.clock (λ now db. record_validation current.id current.attempt result db)
        if validation_ok result
            then (do
              ask (h.workspaces.verify_integrity current worktree)
              pure (goes_on (current, worktree)))
            else (do
              finished ← stop h current JobState.blocked (record no_args {
                phase = some "setup-failed";
                validation_summary = some "repository setup failed";
                terminal_reason = some "Repository setup script failed; see the run report.";
              })
              pure (ended finished))
    ]

  -- No commands are configured, and the worktree has no gate of its own.
  unfoldable pub needs_quality_gate : Job → (worktree : String) → Exec Bool
  unfolding lookup_repository
  needs_quality_gate job worktree =
      elim (lookup_repository h.config.repositories job.repository).validation_commands [
        | command ∷ rest ↦ pure false
        | [] ↦ do found ← ask (h.workspaces.has_quality_gate worktree); pure (not found)
      ]

  -- A job with a conversation is resumed with the latest comments, any other one is started.
  unfoldable pub launch : Job → Provider → (worktree : String) → Prompt → Exec ProviderRun
  launch job provider worktree prompt =
      if has_text job.conversation_id && provider.supports_resume
      then (do
        comments ← ask (h.github.recent_issue_comments job.repository job.issue_number)
        resume_turn h job provider
            (record {
              provider = job.implementation_provider;
              conversation_id = get_or job.conversation_id "";
              session_id = job.session_id;
            })
            (guidance_prompt (h.redact (h.join_comments comments) 20000)))
      else start_turn h job provider worktree prompt job.id false

  -- The attempt counts from the moment that the provider has accepted the turn.
  unfoldable pub first_turn :
      Job → Provider → (worktree : String) → Exec (Job × (ProviderRun × ProviderResult))
  unfolding needs_quality_gate launch
  first_turn job provider worktree = do
    gate_required ← needs_quality_gate job worktree
    provider_slot h job provider
    run ← launch job provider worktree (implementation_prompt job gate_required)
    mark_started
    begun ← assign_job (
        commit h.clock
          (λ now db. begin_attempt job.id (some run.conversation_id) run.session_id now db))
    sync_status h begun
    result ← ask (provider.wait run)
    current ← updated h begun (
        set_conversation_id (or_else result.conversation_id (some run.conversation_id))
        ∷ set_session_id (or_else result.session_id run.session_id)
        ∷ [])
    pure (current, (run, result))

  -- The answer of the provider may end the run.
  unfoldable pub judge : Job → ProviderResult → Exec (Step (Job × ProviderResult))
  judge job result = do
    stopped ← transition_from_provider_result h job result
    elim stopped [
      | none ↦ pure (goes_on (job, result))
      | some moved_job ↦ do finished ← finish h moved_job; pure (ended finished)
    ]

  abbrev incomplete_args : (validation_summary : String) → TransitionArgs
  incomplete_args summary =
      record (with_terminal "implementation-incomplete"
        "The agent did not produce substantive issue changes after the bounded correction limit; validation-policy changes alone cannot satisfy the issue.") {
          validation_summary = some summary;
        }

  abbrev invalid_args : (validation_summary : String) → TransitionArgs
  invalid_args summary =
      record (with_terminal "validation-failed"
        "Required validation failed after the bounded correction limit; see the run report.") {
          validation_summary = some summary;
        }

  -- No correction is left: the job fails.
  unfoldable pub give_up : Job → (substantive : Bool) → (validation_summary : String) → Exec Job
  give_up job substantive summary =
      stop h job JobState.failed
        (if substantive then invalid_args summary else incomplete_args summary)

  unfoldable pub correct :
      Job
      → Provider
      → ProviderRun
      → Prompt
      → (substantive : Bool) → (corrections : ℕ) → Exec (Step (Job × ProviderResult))
  unfolding judge
  correct job provider run prompt substantive corrections = do
    commit_log h.clock (λ now db.
        record_event job.id
          (if substantive then "validation-correction" else "implementation-correction")
          (pass_detail corrections) now db)
    provider_slot h job provider
    resume_turn h job provider run prompt
    result ← ask (provider.wait run)
    judge job result

  unfoldable pub inspect : Job → (worktree default_branch : String) → Exec Inspection
  inspect job worktree default_branch = do
    paths ← ask (h.workspaces.changed_paths worktree default_branch)
    let substantive = has_substantive_implementation h job paths
    verdict ← run_validations h job worktree
    current ← updated h job (set_validation_summary verdict.0.1 ∷ set_phase "validation" ∷ [])
    pure (record {
      job = current;
      is_valid = verdict.0.0;
      is_substantive = substantive;
      validation_summary = verdict.0.1;
      results = verdict.1;
      changed_paths = paths;
    })

  -- `while True`, by the number of corrections that are left: `corrections >=
  -- max_implementation_corrections` holds when none is.
  unfoldable pub correction_rounds :
      Job
      → ProviderResult
      → Provider
      → ProviderRun
      → (worktree default_branch : String) → (corrections_left corrections : ℕ)
      → Exec (Step (Job × ProviderResult))
  unfolding inspect give_up correct
  correction_rounds job result provider run worktree default_branch zero corrections = do
    seen ← inspect job worktree default_branch
    if seen.is_valid && seen.is_substantive then pure (goes_on (seen.job, result)) else (do
      finished ← give_up seen.job seen.is_substantive seen.validation_summary
      pure (ended finished))
  correction_rounds job result provider run worktree default_branch (suc left) corrections = do
    seen ← inspect job worktree default_branch
    if seen.is_valid && seen.is_substantive
        then pure (goes_on (seen.job, result))
        else if not provider.supports_resume
        then (do
          finished ← give_up seen.job seen.is_substantive seen.validation_summary
          pure (ended finished))
        else (do
          next ←
              correct seen.job provider run
                (correction_prompt seen.job seen.changed_paths seen.results seen.validation_summary
                  (not seen.is_substantive) (not seen.is_valid))
                seen.is_substantive (suc corrections)
          elim next [
            | ended finished ↦ pure (ended finished)
            | goes_on (current, answer) ↦
                correction_rounds current answer provider run worktree default_branch left
                  (suc corrections)
          ])

  -- From the worktree to an implementation that is validated.
  unfoldable pub implement :
      Job → IssueSnapshot → Provider → Exec (Step (Job × (String × ProviderResult)))
  unfolding set_up first_turn judge correction_rounds
  implement job live provider = do
    ready ← set_up job live
    elim ready [
      | ended finished ↦ pure (ended finished)
      | goes_on (current, worktree) ↦ do
        turn ← first_turn current provider worktree
        judged ← judge turn.0 turn.1.1
        elim judged [
          | ended finished ↦ pure (ended finished)
          | goes_on (accepted, result) ↦ do
            corrected ←
                correction_rounds accepted result provider turn.1.0 worktree live.default_branch
                  h.config.max_implementation_corrections 0
            elim corrected [
              | ended finished ↦ pure (ended finished)
              | goes_on (final, answer) ↦ pure (goes_on (final, (worktree, answer)))
            ]
        ]
    ]
