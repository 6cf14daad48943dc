-- ===== src/Scheduler.antt =====
-- src/symphony/scheduler.py: `tick` claims jobs while the executor has room, and submits them.
pub mod Bounds
pub mod Tests
use openhands_symphony.Base.{
  ℕ, zero, suc, ◌-◌, String, Bool, not, Option, none, some, List, [], ◌∷◌, ◌++◌, ◌||◌, leb,
  if◌then◌else◌, select, length, map,
}
use openhands_symphony.Models.{Job}
use openhands_symphony.Store.Claim.{claim_next}
use openhands_symphony.Coordinator.Exec.{Exec, pure, ◌>>=◌, ◌>>◌, commit}
use openhands_symphony.Coordinator.Host.{Host}
use openhands_symphony.Coordinator.Reconcile.{reconcile}

-- The fields of a `Scheduler`: `futures` has the ids of the jobs that were submitted. Threads, the
-- executor and the stop event are outside the model.
pub record Scheduler : Type 0 where
  pub owner : String
  pub futures : List String
  pub last_reconcile : ℕ

-- `done` is the answer of `future.done()`; what a finished future raised is dropped.
unfoldable pub clean_futures : (done : String → Bool) → Scheduler → Scheduler
clean_futures done s = record s { futures = select (λ id. not (done id)) s.futures }

module _ (h : Host) where
  -- The rounds of `while True`: `available` goes down by one with each submitted job.
  unfoldable pub claim_rounds : (owner : String) (available : ℕ) → Exec (List Job)
  claim_rounds owner zero = pure []
  claim_rounds owner (suc available) = do
    found ← commit h.clock (λ now db.
        claim_next owner h.config.lease_seconds h.config.global_concurrency
          h.config.provider_concurrency now db)
    elim found [
      | none ↦ pure []
      | some job ↦ do rest ← claim_rounds owner available; pure (job ∷ rest)
    ]

  -- `reconcile or now - self._last_reconcile >= ...`
  unfoldable pub is_due : Bool → ℕ → Scheduler → Bool
  is_due forced now s = forced || leb h.config.reconcile_seconds (now - s.last_reconcile)

  unfoldable pub reconcile_if : Bool → ℕ → Scheduler → Exec Scheduler
  unfolding is_due
  reconcile_if forced now s =
      if is_due forced now s
      then (do reconcile h; pure (record s { last_reconcile = now }))
      else pure s

  -- The number of started jobs, and the scheduler with their futures.
  unfoldable pub tick :
      (done : String → Bool) (forced : Bool) (now : ℕ) → Scheduler → Exec (ℕ × Scheduler)
  unfolding clean_futures reconcile_if claim_rounds
  tick done forced now s = do
    current ← reconcile_if forced now (clean_futures done s)
    jobs ← claim_rounds current.owner (h.config.global_concurrency - length current.futures)
    pure (length jobs, record current { futures = current.futures ++ map (λ j. j.id) jobs })
