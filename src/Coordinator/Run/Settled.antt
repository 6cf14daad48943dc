-- ===== src/Coordinator/Run/Settled.antt =====
-- On the except clauses of `_run_claimed` of src/symphony/coordinator.py.
use openhands_symphony.Base.{
  ℕ, suc, if◌then◌else◌, String, Bool, true, false, not, ◌≡◌, refl, Option, none, some, List, [],
  ◌∷◌, ◌||◌, arith, if_ind, find, any, ltb, string_eq, nat_eq,
}
use openhands_symphony.Models.{Timestamp, JobState, state_eq, is_active, Job}
use openhands_symphony.Store.Schema.{
  Db, ok, has_id, holds, unknown_job, invalid_transition, unsupported_fields, unknown_command,
  not_running, not_requeued, integrity_error, lease_expired,
}
use openhands_symphony.Store.Log.{set_provider_backoff}
use openhands_symphony.Store.Jobs.{get_job_by_id}
use openhands_symphony.Store.Transition.{
  TransitionArgs, allowed, may_move, should_release, apply_transition, write_transition, transition,
}
use openhands_symphony.Store.Transition.Legal.{transition-Moved}
use openhands_symphony.Coordinator.Exec.{
  Failure, store_error, github_error, stale_issue, intake_error, provider_error, workspace_error,
  os_error, unexpected, Frame, World, Outcome, returned, raised, Exec, continue, handle, pure,
}
use openhands_symphony.Coordinator.Agent.{QuotaState, Provider}
use openhands_symphony.Coordinator.Host.{Host}
use openhands_symphony.Coordinator.Recovery.{has_number}
use openhands_symphony.Coordinator.Result.{or_text}
use openhands_symphony.Coordinator.Run.Failure.{
  by_limited, has_live_pr, move_to, on_stale, limited_provider, or_seconds, rest_provider,
  on_limited, on_tool_failure, on_provider_error, on_orchestrator_error, on_unexpected, by_failure,
  after_failure,
}

-- A job that was given up safely: the call returned the stored job, of which `S` holds, and no lease of
-- the job is left.
abbrev pub Left : (Job → Type 0) → String → Outcome Job × World → Type 0
Left S id (returned j, w) =
    S j × (find (has_id id) w.db.jobs ≡ some j) × (any (holds id) w.db.leases ≡ false)
Left S id (raised f, w) = ⊥

transition_ok :
    (id : String) (target : JobState) (args : TransitionArgs) (now : Timestamp) (db : Db)
    (row : Job)
    → find (has_id id) db.jobs ≡ some row
    → may_move row.state target ≡ true
    → transition id target args now db
      ≡ ok (apply_transition target args now row, write_transition id row.state target args now db)
unfolding transition
transition_ok id target args now db row found legal = rw (found, transition, legal) refl

-- The value is returned and the world is the same but for the tick.
abbrev Quiet : {A : Type 0} → Outcome A × World → World → Type 0
Quiet {A} r w = (a : A) × ((tick : ℕ) × (r ≡ (returned a, record w { tick = tick })))

abbrev answered : Outcome QuotaState → World → Outcome (Option QuotaState) × World
answered o v =
    let (r, u) = continue o (λ quota. pure (some quota)) v in handle (λ _. some (pure none)) r u

abbrev picked :
    Provider
    → Exec (Option (String × QuotaState))
    → Option QuotaState
    → Exec (Option (String × QuotaState))
picked p rest none = rest
picked p rest (some quota) = if quota.limited then pure (some (p.name, quota)) else rest

picked-Quiet :
    (p : Provider) (rest : Exec (Option (String × QuotaState))) (w : World)
    → ((v : World) → Quiet (rest v) v)
    → (o : Outcome QuotaState)
    → Quiet (continue (answered o w).0 (picked p rest) (answered o w).1) w
picked-Quiet p rest w quiet (raised f) = quiet w
picked-Quiet p rest w quiet (returned quota) =
    if_ind (λ (m : Exec (Option (String × QuotaState))). Quiet (m w) w) quota.limited _ _
      (λ _. (some (p.name, quota), (w.tick, refl))) (λ _. quiet w)

limited_provider-Quiet :
    (h : Host) (ps : List Provider) (w : World) → Quiet (limited_provider h ps w) w
unfolding limited_provider
limited_provider-Quiet h [] w = (none, (w.tick, refl))
limited_provider-Quiet h (p ∷ ps) w =
    picked-Quiet p (limited_provider h ps) (record w { tick = suc w.tick })
      (limited_provider-Quiet h ps) (p.quota_or_rate_limit_state w.tick)

module _ (h : Host) (frame : Frame) (row : Job) (S : Job → Type 0) where
  left_by_move :
      (target : JobState) (args : TransitionArgs) (w : World)
      → find (has_id frame.job.id) w.db.jobs ≡ some row
      → may_move row.state target ≡ true
      → should_release target args ≡ true
      → ((now : Timestamp) → S (apply_transition target args now row))
      → Left S frame.job.id (move_to h frame target args w)
  left_by_move target args w found legal release s =
      let now = h.clock w.tick in
      let e = transition_ok frame.job.id target args now w.db row found legal in
      let m = transition-Moved frame.job.id target args now w.db _ e in
      rw e (s now, m.stored, m.released release)

stops : {b : Bool} → b ≡ true → b ≡ false → ⊥
stops e e' = cc

-- The clauses may move the job to the state, and then `S` holds.
pub record Exit (row : Job) (S : Job → Type 0) (target : JobState) : Type 0 where
  pub legal : may_move row.state target ≡ true
  pub holds : (args : TransitionArgs) (now : Timestamp) → S (apply_transition target args now row)

-- Where the clauses may move the job, by the tests that they make.
pub record Exits (row : Job) (S : Job → Type 0) : Type 0 where
  pub with_pr : has_number row.pr_number ≡ true → Exit row S JobState.pr_open
  pub waits : has_number row.pr_number ≡ false → Exit row S JobState.needs_guidance
  pub retries : has_number row.pr_number ≡ false → Exit row S JobState.queued
  pub live : has_live_pr row ≡ true → Exit row S JobState.pr_open
  pub dead_waits : has_live_pr row ≡ false → Exit row S JobState.needs_guidance
  pub dead_retries : has_live_pr row ≡ false → Exit row S JobState.queued
  pub dead_fails : has_live_pr row ≡ false → Exit row S JobState.failed
  pub dead_runs : has_live_pr row ≡ false → state_eq row.state JobState.running ≡ true

module _ (h : Host) (frame : Frame) (row : Job) (S : Job → Type 0) (exits : Exits row S) where
  out :
      (target : JobState) (args : TransitionArgs) (w : World)
      → find (has_id frame.job.id) w.db.jobs ≡ some row
      → Exit row S target
      → should_release target args ≡ true
      → Left S frame.job.id (move_to h frame target args w)
  out target args w found exit release =
      left_by_move h frame row S target args w found exit.legal release (exit.holds args)

  on_stale-Left :
      (text : String) (w : World)
      → find (has_id frame.job.id) w.db.jobs ≡ some row
      → Left S frame.job.id (on_stale h frame row text w)
  unfolding on_stale should_release is_active
  on_stale-Left text w found =
      if_ind (λ (m : Exec Job). Left S frame.job.id (m w)) (has_number row.pr_number) _ _
        (λ pr. out JobState.pr_open _ w found (exits.with_pr pr) refl)
        (λ pr. out JobState.needs_guidance _ w found (exits.waits pr) refl)

  on_limited-Left :
      (provider detail : String) (quota : QuotaState) (w : World)
      → find (has_id frame.job.id) w.db.jobs ≡ some row
      → Left S frame.job.id (on_limited h frame row provider quota detail w)
  unfolding on_limited should_release is_active set_provider_backoff
  on_limited-Left provider detail quota w found =
      let seconds = or_seconds quota.retry_after_seconds h.config.provider_backoff_base_seconds in
      let rested : World = (rest_provider h provider detail seconds w).1 in
      if_ind (λ (m : Exec Job). Left S frame.job.id (m rested)) (has_number row.pr_number) _ _
        (λ pr. out JobState.pr_open _ rested found (exits.with_pr pr) refl)
        (λ pr. out JobState.queued _ rested found (exits.retries pr) refl)

  on_tool_failure-Left :
      (detail : String) (w : World)
      → find (has_id frame.job.id) w.db.jobs ≡ some row
      → Left S frame.job.id (on_tool_failure h frame row detail w)
  unfolding on_tool_failure should_release is_active set_provider_backoff
  on_tool_failure-Left detail w found =
      let P : Exec Job → Type 0 = λ m. Left S frame.job.id (m w) in
      if_ind P (has_live_pr row) _ _ (λ live. out JobState.pr_open _ w found (exits.live live) refl)
        (λ dead.
          if_ind P (not frame.provider_turn_started) _ _
            (λ _. out JobState.needs_guidance _ w found (exits.dead_waits dead) refl)
            (λ _.
              if_ind P (ltb frame.job.attempt h.config.max_attempts) _ _
                (λ _. out JobState.queued _ _ found (exits.dead_retries dead) refl)
                (λ _. out JobState.failed _ w found (exits.dead_fails dead) refl)))

  by_limited-Left :
      (detail : String) (o : Option (String × QuotaState)) (w : World)
      → find (has_id frame.job.id) w.db.jobs ≡ some row
      → Left S frame.job.id (by_limited h frame row detail o w)
  by_limited-Left detail none w found = on_tool_failure-Left detail w found
  by_limited-Left detail (some (provider, quota)) w found =
      on_limited-Left provider (h.redact (or_text quota.detail detail) 4000) quota w found

  on_provider_error-Left :
      (text : String) (w : World)
      → find (has_id frame.job.id) w.db.jobs ≡ some row
      → Left S frame.job.id (on_provider_error h frame row text w)
  unfolding on_provider_error
  on_provider_error-Left text w found =
      let (o, (tick, e)) = limited_provider-Quiet h h.providers w in
      rw e (by_limited-Left (h.redact text 4000) o (record w { tick = tick }) found)

  on_orchestrator_error-Left :
      (text : String) (w : World)
      → find (has_id frame.job.id) w.db.jobs ≡ some row
      → Left S frame.job.id (on_orchestrator_error h frame row text w)
  unfolding on_orchestrator_error should_release is_active
  on_orchestrator_error-Left text w found =
      let P : Exec Job → Type 0 = λ m. Left S frame.job.id (m w) in
      if_ind P (has_live_pr row) _ _ (λ live. out JobState.pr_open _ w found (exits.live live) refl)
        (λ dead.
          if_ind P (state_eq row.state JobState.running) _ _
            (λ _. out JobState.failed _ w found (exits.dead_fails dead) refl)
            (λ stopped. absurd (stops (exits.dead_runs dead) stopped)))

  on_unexpected-Left :
      (text : String) (w : World)
      → find (has_id frame.job.id) w.db.jobs ≡ some row
      → Left S frame.job.id (on_unexpected h frame row text w)
  unfolding on_unexpected should_release is_active
  on_unexpected-Left text w found =
      if_ind (λ (m : Exec Job). Left S frame.job.id (m w)) (has_live_pr row) _ _
        (λ live. out JobState.pr_open _ w found (exits.live live) refl)
        (λ dead. out JobState.failed _ w found (exits.dead_fails dead) refl)

  by_failure-Left :
      (f : Failure) (w : World)
      → find (has_id frame.job.id) w.db.jobs ≡ some row
      → Left S frame.job.id (by_failure h frame row f w)
  unfolding by_failure
  by_failure-Left (stale_issue m) w found = on_stale-Left _ w found
  by_failure-Left (provider_error m) w found = on_provider_error-Left _ w found
  by_failure-Left (github_error m) w found = on_orchestrator_error-Left _ w found
  by_failure-Left (workspace_error m) w found = on_orchestrator_error-Left _ w found
  by_failure-Left (os_error m) w found = on_orchestrator_error-Left _ w found
  by_failure-Left (store_error integrity_error) w found = on_unexpected-Left _ w found
  by_failure-Left (store_error (unknown_job id)) w found = on_orchestrator_error-Left _ w found
  by_failure-Left (store_error (invalid_transition from to)) w found =
      on_orchestrator_error-Left _ w found
  by_failure-Left (store_error (unsupported_fields fields)) w found =
      on_orchestrator_error-Left _ w found
  by_failure-Left (store_error (unknown_command text)) w found =
      on_orchestrator_error-Left _ w found
  by_failure-Left (store_error not_running) w found = on_orchestrator_error-Left _ w found
  by_failure-Left (store_error not_requeued) w found = on_orchestrator_error-Left _ w found
  by_failure-Left (store_error lease_expired) w found = on_orchestrator_error-Left _ w found
  by_failure-Left (intake_error m) w found = on_unexpected-Left _ w found
  by_failure-Left (unexpected m) w found = on_unexpected-Left _ w found

abbrev pub IsIdle : Job → Type 0
IsIdle j = is_active j.state ≡ false

-- Out of running every exit is open.
Exit-running :
    (row : Job) (target : JobState)
    → row.state ≡ JobState.running
    → may_move JobState.running target ≡ true
    → is_active target ≡ false
    → Exit row IsIdle target
unfolding apply_transition
Exit-running row target running legal idle = record {
  legal = rw running legal;
  holds = λ args now. idle;
}

Exits-running : (row : Job) → row.state ≡ JobState.running → Exits row IsIdle
unfolding may_move allowed is_active state_eq
Exits-running row running =
    let to_pr = Exit-running row JobState.pr_open running refl refl in
    let to_guidance = Exit-running row JobState.needs_guidance running refl refl in
    let to_queue = Exit-running row JobState.queued running refl refl in
    record {
      with_pr = λ _. to_pr;
      waits = λ _. to_guidance;
      retries = λ _. to_queue;
      live = λ _. to_pr;
      dead_waits = λ _. to_guidance;
      dead_retries = λ _. to_queue;
      dead_fails = λ _. Exit-running row JobState.failed running refl refl;
      dead_runs = λ _. rw running refl;
    }

-- The pull request is open, and still the one of the job.
abbrev pub Preserves : Job → Job → Type 0
Preserves row j = (j.state ≡ JobState.pr_open) × (j.pr_number ≡ row.pr_number)

pr_open_again :
    (s : JobState)
    → (state_eq s JobState.pr_open || state_eq s JobState.reviewing) ≡ true
    → may_move s JobState.pr_open ≡ true
unfolding may_move allowed state_eq
pr_open_again JobState.pr_open e = refl
pr_open_again JobState.reviewing e = refl
pr_open_again s e = cc

Exits-live : (row : Job) → has_live_pr row ≡ true → Exits row (Preserves row)
unfolding has_live_pr apply_transition
Exits-live row alive =
    let number : has_number row.pr_number ≡ true = ground arith in
    let to_pr : Exit row (Preserves row) JobState.pr_open = record {
      legal = pr_open_again row.state (ground arith);
      holds = λ args now. (refl, refl);
    } in
    record {
      with_pr = λ _. to_pr;
      waits = λ no_number. absurd (stops number no_number);
      retries = λ no_number. absurd (stops number no_number);
      live = λ _. to_pr;
      dead_waits = λ dead. absurd (stops alive dead);
      dead_retries = λ dead. absurd (stops alive dead);
      dead_fails = λ dead. absurd (stops alive dead);
      dead_runs = λ dead. absurd (stops alive dead);
    }

-- Whatever exception ends the run of a job that is stored as running, its clause returns: the job is
-- stored in a state that is not active, and no lease on it is left, so that it cannot stay claimed.
pub after_failure-Left :
    (h : Host) (f : Failure) (w : World) (row : Job)
    → find (has_id w.frame.job.id) w.db.jobs ≡ some row
    → row.state ≡ JobState.running
    → Left IsIdle w.frame.job.id (after_failure h f w)
unfolding after_failure get_job_by_id
after_failure-Left h f w row found running =
    rw found (by_failure-Left h w.frame row IsIdle (Exits-running row running) f w found)

-- Whatever exception ends the run of a job with a pull request that is open or in review, its clause
-- returns: the job is stored in pr-open with the same pull request, and no lease on it is left.
pub after_failure-Preserves :
    (h : Host) (f : Failure) (w : World) (row : Job)
    → find (has_id w.frame.job.id) w.db.jobs ≡ some row
    → has_live_pr row ≡ true
    → Left (Preserves row) w.frame.job.id (after_failure h f w)
unfolding after_failure get_job_by_id
after_failure-Preserves h f w row found alive =
    rw found (by_failure-Left h w.frame row (Preserves row) (Exits-live row alive) f w found)
