-- ===== src/Scheduler/Bounds.antt =====
-- On `tick` of src/symphony/scheduler.py.
use openhands_symphony.Base.{
  ℕ, zero, suc, ◌+◌, ◌-◌, ◌≤◌, ◌≡◌, refl, String, Bool, not, Option, none, some, List, [], ◌∷◌,
  ◌++◌, arith, if_ind, select, length, map, All,
}
use openhands_symphony.Models.{JobState, Job}
use openhands_symphony.Store.Schema.{Db, ok, OnOk-elim}
use openhands_symphony.Store.Claim.{claim_next}
use openhands_symphony.Store.Claim.Sound.{ClaimResult, claim_next-ClaimResult}
use openhands_symphony.Coordinator.Exec.{
  World, Outcome, returned, raised, Exec, continue, continue_ind, settle_ind,
}
use openhands_symphony.Coordinator.Host.{Host}
use openhands_symphony.Coordinator.Reconcile.{reconcile}
use openhands_symphony.Scheduler.{
  Scheduler, clean_futures, claim_rounds, is_due, reconcile_if, tick,
}

length-select {ℓ} : {A : Type ℓ} (p : A → Bool) (xs : List A) → length (select p xs) ≤ length xs
unfolding select
length-select p [] = omega arith
length-select p (x ∷ xs) = ground (arith, length-select p xs)

length-++ {ℓ} : {A : Type ℓ} (xs ys : List A) → length (xs ++ ys) ≡ length xs + length ys
length-++ [] ys = omega arith
length-++ (x ∷ xs) ys = omega (arith, length-++ xs ys)

length-map {ℓ κ} :
    {A : Type ℓ} {B : Type κ} (f : A → B) (xs : List A) → length (map f xs) ≡ length xs
length-map f [] = refl
length-map f (x ∷ xs) = omega (arith, length-map f xs)

module _ (h : Host) where
  -- At most `n` jobs, all of them running.
  abbrev Claims : ℕ → Outcome (List Job) × World → Type 0
  Claims n (returned jobs, w) = (length jobs ≤ n) × All (λ j. j.state ≡ JobState.running) jobs
  Claims n (raised f, w) = Unit

  abbrev next_rounds : String → ℕ → Option Job → Exec (List Job)
  next_rounds owner n none v = (returned [], v)
  next_rounds owner n (some job) v =
      let (o, u) = claim_rounds h owner n v in
      continue o (λ rest. λ t. (returned (job ∷ rest), t)) u

  abbrev IsRunning : Option Job → Type 0
  IsRunning none = Unit
  IsRunning (some job) = job.state ≡ JobState.running

  IsRunning-of :
      (owner : String) (seconds limit : ℕ) (limits : List (String × ℕ)) (now : ℕ) (db db' : Db)
      (found : Option Job)
      → claim_next owner seconds limit limits now db ≡ ok (found, db')
      → IsRunning found
  IsRunning-of owner seconds limit limits now db db' none e = tt
  IsRunning-of owner seconds limit limits now db db' (some job) e =
      (OnOk-elim (ClaimResult owner seconds limit limits now db) _ (some job, db') e
        (claim_next-ClaimResult owner seconds limit limits now db)).running

  next_rounds-Claims :
      (owner : String) (n : ℕ) (found : Option Job) (w : World)
      → IsRunning found
      → ((v : World) → Claims n (claim_rounds h owner n v))
      → Claims (suc n) (next_rounds owner n found w)
  next_rounds-Claims owner n none w run ih = (omega arith, tt)
  next_rounds-Claims owner n (some job) w run ih =
      go (claim_rounds h owner n w).0 (claim_rounds h owner n w).1 (ih w)
    where
      go :
          (o : Outcome (List Job)) (u : World)
          → Claims n (o, u)
          → Claims (suc n) (continue o (λ rest. λ t. (returned (job ∷ rest), t)) u)
      go (returned jobs) u (bound, all) = (omega (arith, bound), (run, all))
      go (raised f) u c = tt

  claim_rounds-Claims : (owner : String) (n : ℕ) (w : World) → Claims n (claim_rounds h owner n w)
  unfolding claim_rounds
  claim_rounds-Claims owner zero w = (omega arith, tt)
  claim_rounds-Claims owner (suc n) w =
      let limit = h.config.global_concurrency in
      let limits = h.config.provider_concurrency in
      settle_ind (λ r. Claims (suc n) (continue r.0 (next_rounds owner n) r.1))
        (claim_next owner h.config.lease_seconds limit limits (h.clock w.tick) w.db) w
        (λ found db e.
          next_rounds-Claims owner n found _
            (IsRunning-of owner h.config.lease_seconds limit limits (h.clock w.tick) w.db db found
              e)
            (claim_rounds-Claims owner n))
        (λ e. tt)

  -- As many jobs started as futures were added, and no more futures than the global limit.
  abbrev pub Within : Outcome (ℕ × Scheduler) × World → Type 0
  Within (returned (started, s), w) =
      (started ≤ length s.futures) × (length s.futures ≤ h.config.global_concurrency)
  Within (raised f, w) = Unit

  abbrev submit : Scheduler → Exec (ℕ × Scheduler)
  submit current v =
      let (o, u) =
        claim_rounds h current.owner (h.config.global_concurrency - length current.futures) v in
      continue o
        (λ jobs. λ t. (
          returned
              (length jobs, record current { futures = current.futures ++ map (λ j. j.id) jobs }),
          t,
        ))
        u

  submit-Within :
      (current : Scheduler) (w : World)
      → length current.futures ≤ h.config.global_concurrency
      → Within (submit current w)
  submit-Within current w room =
      let room_left = h.config.global_concurrency - length current.futures in
      go (claim_rounds h current.owner room_left w).0 (claim_rounds h current.owner room_left w).1
        (claim_rounds-Claims current.owner room_left w)
    where
      go :
          (o : Outcome (List Job)) (u : World)
          → Claims (h.config.global_concurrency - length current.futures) (o, u)
          → Within (
              continue o
                (λ jobs. λ t. (
                  returned (
                    length jobs,
                    record current { futures = current.futures ++ map (λ j. j.id) jobs },
                  ),
                  t,
                ))
                u)
      go (returned jobs) u (bound, all) =
          let both = length-++ current.futures (map (λ j. j.id) jobs) in
          let same = length-map (λ (j : Job). j.id) jobs in
          (omega (arith, both, same), omega (arith, both, same, bound))
      go (raised f) u c = tt

  -- A tick that returns leaves at most `global_concurrency` submitted jobs, if there were no more before
  -- it, whatever reconciliation did in between.
  pub tick-Within :
      (done : String → Bool) (forced : Bool) (now : ℕ) (s : Scheduler) (w : World)
      → length s.futures ≤ h.config.global_concurrency
      → Within (tick h done forced now s w)
  unfolding tick clean_futures reconcile_if
  tick-Within done forced now s w room =
      let kept = select (λ id. not (done id)) s.futures in
      let fits : length kept ≤ h.config.global_concurrency =
        omega (arith, room, length-select (λ id. not (done id)) s.futures) in
      let cleaned : Scheduler = record s { futures = kept } in
      if_ind (λ (m : Exec Scheduler). Within (continue (m w).0 submit (m w).1))
        (is_due h forced now cleaned) _ _
        (λ _.
          continue_ind (λ r. Within (continue r.0 submit r.1)) (reconcile h w).0 _ (reconcile h w).1
            (λ _. submit-Within (record cleaned { last_reconcile = now }) (reconcile h w).1 fits)
            (λ f. tt))
        (λ _. submit-Within cleaned w fits)
