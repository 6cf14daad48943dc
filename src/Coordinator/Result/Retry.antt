-- ===== src/Coordinator/Result/Retry.antt =====
-- On `_transition_from_provider_result` of src/symphony/coordinator.py.
use openhands_symphony.Base.{
  Bool, List, [], ◌∷◌, update_where, ◌≤◌, ℕ, suc, ◌+◌, ◌<◌, ltb→lt, String, true, ◌≡◌, ◌≢◌, refl,
  sym, ◌∙◌, Option, none, some, ◌==◌, string_eq, arith, eq_refl, if_ind, any, find, Option-cases,
  inl, inr, ltb, leb, any-insert_row, subst,
}
use openhands_symphony.Models.{Timestamp, JobState, Job}
use openhands_symphony.Store.Schema.{Backoff, Db, OnOk, OnOk-elim, has_id}
use openhands_symphony.Store.Log.{set_provider_backoff, is_backoff_of}
use openhands_symphony.Store.Jobs.{get_job_by_id}
use openhands_symphony.Store.Transition.{
  TransitionArgs, transition, may_move, write_transition, get_or,
}
use openhands_symphony.Store.Transition.Legal.{transition-Moved}
use openhands_symphony.Coordinator.Exec.{
  World, Outcome, returned, raised, Exec, continue, continue_ind, settle_ind,
}
use openhands_symphony.Coordinator.Host.{Host}
use openhands_symphony.Coordinator.Intake.{with_message}
use openhands_symphony.Coordinator.Agent.{ProviderOutcome, ProviderResult}
use openhands_symphony.Store.Claim.{is_backed_off}
use openhands_symphony.Coordinator.Result.Backoff.{backoff_seconds_bounded}
use openhands_symphony.Coordinator.Result.{
  with_jitter, move, retry_later, quota_failure, tool_failure, failure, by_outcome, decide,
  publish_provider_result, transition_from_provider_result,
}

-- A transition leaves the resting providers alone.
backoff-transition :
    (id : String) (target : JobState) (args : TransitionArgs) (now : Timestamp) (db : Db)
    → OnOk (λ r. r.1.provider_backoff ≡ db.provider_backoff) (transition id target args now db)
unfolding transition write_transition
backoff-transition id target args now db = elim (Option-cases (find (has_id id) db.jobs)) [
  | inl e ↦ rw (e, transition) tt
  | inr (row, e) ↦
      rw (e, transition)
        (if_ind (OnOk (λ r. r.1.provider_backoff ≡ db.provider_backoff)) (may_move row.state target)
          _ _ (λ _. refl) (λ _. tt))
]

-- No job of the provider is a candidate of the queue before this time.
abbrev pub RestsUntil : Timestamp → String → Db → Type 0
RestsUntil end provider db =
    (now : Timestamp) → now < end → any (is_backed_off now provider) db.provider_backoff ≡ true

any-update_where_hit :
    (p q : Backoff → Bool) (f : Backoff → Backoff) (xs : List Backoff)
    → ((x : Backoff) → q x ≡ true → p (f x) ≡ true)
    → any q xs ≡ true
    → any p (update_where q f xs) ≡ true
unfolding any update_where
any-update_where_hit p q f [] hit there = there
any-update_where_hit p q f (x ∷ xs) hit there =
    ground (arith, hit x, any-update_where_hit p q f xs hit)

set_provider_backoff-RestsUntil :
    (provider reason : String) (seconds : ℕ) (at : Timestamp) (db : Db)
    → RestsUntil (at + seconds) provider (set_provider_backoff provider reason seconds at db)
unfolding set_provider_backoff
set_provider_backoff-RestsUntil provider reason seconds at db now early =
    if_ind (λ rows. any (is_backed_off now provider) rows ≡ true)
      (any (is_backoff_of provider) db.provider_backoff) _ _
      (λ e.
        any-update_where_hit (is_backed_off now provider) (is_backoff_of provider) _
          db.provider_backoff (λ b same. ground (arith, same)) e)
      (λ _. ground (
        arith,
        any-insert_row (is_backed_off now provider)
            (record {
              provider = provider;
              reason = reason;
              until_at = at + seconds;
              updated_at = at;
            })
            db.provider_backoff,
        eq_refl provider,
      ))

-- A job that is queued again failed with attempts left, and its provider rests for the configured
-- base from the given time on.
abbrev pub Requeued :
    Host → Job → (since : Timestamp) → ProviderOutcome → Outcome (Option Job) × World → Type 0
Requeued h job since outcome (returned (some moved), w) =
    moved.state ≡ JobState.queued
    → (outcome ≡ ProviderOutcome.failed)
      × (job.attempt < h.config.max_attempts)
      × RestsUntil (since + h.config.provider_backoff_base_seconds) job.implementation_provider w.db
Requeued h job since outcome (returned none, w) = Unit
Requeued h job since outcome (raised f, w) = Unit

module _ (h : Host) (job : Job)
    (le : h.config.provider_backoff_base_seconds ≤ h.config.provider_backoff_max_seconds) where
  moved_elsewhere :
      (outcome : ProviderOutcome) (target : JobState) (args : TransitionArgs) (w : World)
      → target ≢ JobState.queued
      → Requeued h job (h.clock w.tick) outcome (move h job target args w)
  moved_elsewhere outcome target args w other =
      settle_ind
        (λ r.
          Requeued h job (h.clock w.tick) outcome
            (continue r.0 (λ m. λ w'. (returned (some m), w')) r.1))
        (transition job.id target args (h.clock w.tick) w.db) w
        (λ a db e. λ q. absurd (
          other
            (sym (transition-Moved job.id target args (h.clock w.tick) w.db (a, db) e).state ∙ q)))
        (λ e. tt)

  retry_later-Requeued :
      (seconds : ℕ) (detail phase message : String) (w : World)
      → job.attempt < h.config.max_attempts
      → h.config.provider_backoff_base_seconds ≤ seconds
      → Requeued h job
          (h.clock w.tick)
          ProviderOutcome.failed
          (retry_later h job seconds detail phase message w)
  unfolding retry_later with_jitter
  retry_later-Requeued seconds detail phase message w left long =
      let now = h.clock w.tick in
      let rested =
        set_provider_backoff job.implementation_provider detail (with_jitter h seconds w.tick) now
          w.db in
      let w1 : World = record w { db = rested; tick = suc w.tick } in
      settle_ind
        (λ r.
          Requeued h job (h.clock w.tick) ProviderOutcome.failed
            (continue r.0 (λ m. λ w'. (returned (some m), w')) r.1))
        (transition job.id JobState.queued (with_message phase message) (h.clock w1.tick) rested) w1
        (λ a db e. λ q. (
          refl,
          left,
          λ now early.
              subst (λ rows. any (is_backed_off now job.implementation_provider) rows ≡ true)
                (sym (
                  OnOk-elim (λ r. r.1.provider_backoff ≡ rested.provider_backoff) _ (a, db) e
                    (backoff-transition job.id JobState.queued (with_message phase message)
                      (h.clock w1.tick) rested)))
                (set_provider_backoff-RestsUntil job.implementation_provider detail
                  (with_jitter h seconds w.tick) (h.clock w.tick) w.db now
                  (omega (arith, long, early))),
        ))
        (λ e. tt)

  quota-Requeued :
      (detail : String) (w : World)
      → Requeued h job (h.clock w.tick) ProviderOutcome.failed (quota_failure h job detail w)
  unfolding quota_failure
  quota-Requeued detail w =
      if_ind
        (λ (m : Exec (Option Job)). Requeued h job (h.clock w.tick) ProviderOutcome.failed (m w))
        (leb h.config.max_attempts job.attempt) _ _
        (λ _. moved_elsewhere ProviderOutcome.failed JobState.failed _ w (λ q. cc))
        (λ left. retry_later-Requeued _ _ _ _ w (ground (arith, left)) (omega arith))

  tool-Requeued :
      (detail : String) (w : World)
      → Requeued h job (h.clock w.tick) ProviderOutcome.failed (tool_failure h job detail w)
  unfolding tool_failure
  tool-Requeued detail w =
      if_ind
        (λ (m : Exec (Option Job)). Requeued h job (h.clock w.tick) ProviderOutcome.failed (m w))
        (ltb job.attempt h.config.max_attempts) _ _
        (λ left.
          retry_later-Requeued _ _ _ _ w (ltb→lt _ _ left)
            (backoff_seconds_bounded h.config.provider_backoff_base_seconds
              h.config.provider_backoff_max_seconds job.attempt job.attempt le (omega arith)).0)
        (λ _. moved_elsewhere ProviderOutcome.failed JobState.failed _ w (λ q. cc))

  failure-Requeued :
      (kind question detail : String) (w : World)
      → Requeued h job
          (h.clock w.tick)
          ProviderOutcome.failed
          (failure h job kind question detail w)
  unfolding failure
  failure-Requeued kind question detail w =
      let P : Exec (Option Job) → Type 0 =
        λ m. Requeued h job (h.clock w.tick) ProviderOutcome.failed (m w) in
      if_ind P (kind == "quota") _ _ (λ _. quota-Requeued detail w)
        (λ _.
          if_ind P (kind == "authentication") _ _
            (λ _. moved_elsewhere ProviderOutcome.failed JobState.failed _ w (λ q. cc))
            (λ _.
              if_ind P (kind == "provider-tool") _ _ (λ _. tool-Requeued detail w)
                (λ _. moved_elsewhere ProviderOutcome.failed JobState.failed _ w (λ q. cc))))

  by_outcome-Requeued :
      (outcome : ProviderOutcome) (kind question detail : String) (w : World)
      → Requeued h job (h.clock w.tick) outcome (by_outcome h job outcome kind question detail w)
  unfolding by_outcome
  by_outcome-Requeued ProviderOutcome.needs_guidance kind question detail w =
      moved_elsewhere ProviderOutcome.needs_guidance JobState.needs_guidance _ w (λ q. cc)
  by_outcome-Requeued ProviderOutcome.blocked kind question detail w =
      moved_elsewhere ProviderOutcome.blocked JobState.blocked _ w (λ q. cc)
  by_outcome-Requeued ProviderOutcome.failed kind question detail w =
      failure-Requeued kind question detail w
  by_outcome-Requeued ProviderOutcome.canceled kind question detail w =
      moved_elsewhere ProviderOutcome.canceled JobState.canceled _ w (λ q. cc)
  by_outcome-Requeued ProviderOutcome.completed kind question detail w = tt

  decide-Requeued :
      (current : Job) (result : ProviderResult) (w : World)
      → Requeued h job (h.clock w.tick) result.outcome (decide h job current result w)
  unfolding decide
  decide-Requeued current result w =
      let P : Exec (Option Job) → Type 0 =
        λ m. Requeued h job (h.clock w.tick) result.outcome (m w) in
      if_ind P current.cancel_requested _ _
        (λ _. moved_elsewhere result.outcome JobState.canceled _ w (λ q. cc))
        (λ _.
          if_ind P current.pause_requested _ _
            (λ _. moved_elsewhere result.outcome JobState.needs_guidance _ w (λ q. cc))
            (λ _. by_outcome-Requeued result.outcome _ _ _ w))

  -- Where the configured base of the backoff is at most its cap, the answer of a provider queues the
  -- job again only if the run failed with attempts left. Then the provider is backed off, as the query
  -- for candidates reads it, at every time before the base has passed since the result was published.
  pub transition_from_provider_result-Requeued :
      (result : ProviderResult) (w : World)
      → Requeued h job
          (h.clock (publish_provider_result h job result w).1.tick)
          result.outcome
          (transition_from_provider_result h job result w)
  unfolding transition_from_provider_result
  transition_from_provider_result-Requeued result w =
      let (o, published) = publish_provider_result h job result w in
      continue_ind (Requeued h job (h.clock published.tick) result.outcome) o _ published
        (λ _. decide-Requeued (get_or (get_job_by_id job.id published.db) job) result published)
        (λ f. tt)
