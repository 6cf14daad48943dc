-- ===== src/Coordinator/Review/Quiet.antt =====
-- The steps of `_review` of src/symphony/coordinator.py in which the implementer takes no turn.
use openhands_symphony.Base.{
  ℕ, zero, suc, ◌+◌, ◌≤◌, Bool, false, not, ◌≡◌, ◌++◌, Option-cases, inl, inr, ◌==◌, string_eq, ltb,
  List, [], ◌∷◌, if_ind, if◌then◌else◌, count_where, arith,
}
use openhands_symphony.Models.{Job}
use openhands_symphony.Store.Schema.{Db, Result, ok, err}
use openhands_symphony.Store.Lease.{renew_lease}
use openhands_symphony.Store.Transition.{TransitionArgs, get_or}
use openhands_symphony.Config.{concurrency_key, slots}
use openhands_symphony.Coordinator.Exec.{
  Sent, turn_started, World, Outcome, Exec, continue, continue_ind, settle, settle_log,
}
use openhands_symphony.Coordinator.Agent.{Provider}
use openhands_symphony.Coordinator.Host.{Host}
use openhands_symphony.Coordinator.Runs.{find_provider}
use openhands_symphony.Coordinator.Turn.{renew, require_live_lease, wait_for_slot, provider_slot}
use openhands_symphony.Coordinator.Review.{end_review, stopped_with, guard, unavailable}

-- A turn that may write: in a review, the turn of the implementer.
abbrev pub is_repair : Sent → Bool
is_repair (turn_started job_id provider read_only) = not read_only
is_repair s = false

abbrev pub repairs_of : World → ℕ
repairs_of w = count_where is_repair w.sent

pub record IsWithin (n : ℕ) {A : Type 0} (r : Outcome A × World) : Type 0 where
  pub within : repairs_of r.1 ≤ n

pub count-sent :
    (s : Sent) (xs : List Sent)
    → count_where is_repair (xs ++ s ∷ [])
      ≤ count_where is_repair xs + (if is_repair s then 1 else 0)
unfolding count_where
count-sent s [] = ground arith
count-sent s (x ∷ xs) = let rest = count-sent s xs in ground (arith, rest)

module _ (n : ℕ) where
  pub IsWithin-then :
      {A B : Type 0} (r : Outcome A × World) (k : A → World → Outcome B × World)
      → IsWithin n r
      → ((a : A) (v : World) → repairs_of v ≤ n → IsWithin n (k a v))
      → IsWithin n (continue r.0 k r.1)
  IsWithin-then r k first rest =
      continue_ind (IsWithin n) r.0 k r.1 (λ a. rest a r.1 first.within)
        (λ f. record { within = first.within })

  pub IsWithin-more :
      {A B : Type 0} (r : Outcome A × World) (k : A → World → Outcome B × World)
      → IsWithin n r
      → ((a : A) (v : World) → repairs_of v ≤ n → IsWithin (suc n) (k a v))
      → IsWithin (suc n) (continue r.0 k r.1)
  IsWithin-more r k first rest =
      let le = first.within in
      continue_ind (IsWithin (suc n)) r.0 k r.1 (λ a. rest a r.1 le)
        (λ f. record { within = omega (arith, le) })

  pub settle-IsWithin :
      {A : Type 0} (r : Result (A × Db)) (w : World) → repairs_of w ≤ n → IsWithin n (settle r w)
  settle-IsWithin (ok (a, db)) w le = record { within = le }
  settle-IsWithin (err e) w le = record { within = le }

  pub settle_log-IsWithin :
      (r : Result Db) (w : World) → repairs_of w ≤ n → IsWithin n (settle_log r w)
  settle_log-IsWithin (ok db) w le = record { within = le }
  settle_log-IsWithin (err e) w le = record { within = le }

  pub send-IsWithin :
      {A : Type 0} (s : Sent) (o : Outcome A) (w : World)
      → is_repair s ≡ false
      → repairs_of w ≤ n
      → IsWithin n (o, record w { tick = suc w.tick; sent = w.sent ++ s ∷ [] })
  send-IsWithin s o w silent le =
      let more : count_where is_repair (w.sent ++ s ∷ []) ≤ count_where is_repair w.sent + 0 =
        rw silent at (count-sent s w.sent) in
      record { within = omega (arith, more, le) }

  pub send-IsWithin-suc :
      {A : Type 0} (s : Sent) (o : Outcome A) (w : World)
      → repairs_of w ≤ n
      → IsWithin (suc n) (o, record w { tick = suc w.tick; sent = w.sent ++ s ∷ [] })
  send-IsWithin-suc s o w le =
      let more = count-sent s w.sent in record { within = ground (arith, more, le) }

module _ (h : Host) (n : ℕ) where
  pub require_live_lease-IsWithin :
      (job : Job) (w : World) → repairs_of w ≤ n → IsWithin n (require_live_lease h job w)
  unfolding require_live_lease renew
  require_live_lease-IsWithin job w le =
      let (renewed, db) =
        renew_lease job.id (get_or job.lease_owner "") h.config.lease_seconds (h.clock w.tick)
          w.db in
      let v = record w { db = db; tick = suc w.tick } in
      if_ind (λ (m : Exec (Unit {0})). IsWithin n (m v)) (not renewed) _ _
        (λ _. record { within = le })
        (λ _.
          continue_ind (IsWithin n) (h.github.get_issue job.repository job.issue_number v.tick) _
            (record v { tick = suc v.tick })
            (λ live.
              elim (Option-cases (concurrency_key h.join h.config job.repository live.labels)) [
                | inl e ↦ rw e (record { within = le })
                | inr (key, e) ↦ rw e (
                    if_ind
                      (λ (m : Exec (Unit {0})). IsWithin n (m (record v { tick = suc v.tick })))
                      (key == job.concurrency_key) _ _ (λ _. record { within = le })
                      (λ _. record { within = le }))
              ])
            (λ f. record { within = le }))

  wait_for_slot-IsWithin :
      (job : Job) (p : Provider) (waits : ℕ) (w : World)
      → repairs_of w ≤ n
      → IsWithin n (wait_for_slot h job p waits w)
  unfolding wait_for_slot renew
  wait_for_slot-IsWithin job p zero w le = record { within = le }
  wait_for_slot-IsWithin job p (suc waits) w le =
      let (renewed, db) =
        renew_lease job.id (get_or job.lease_owner "") h.config.lease_seconds (h.clock w.tick)
          w.db in
      let v = record w { db = db; tick = suc w.tick } in
      if_ind (λ (m : Exec (Unit {0})). IsWithin n (m v)) renewed _ _
        (λ _. wait_for_slot-IsWithin job p waits v le) (λ _. record { within = le })

  pub provider_slot-IsWithin :
      (job : Job) (p : Provider) (w : World)
      → repairs_of w ≤ n
      → IsWithin n (provider_slot h job p w)
  unfolding provider_slot
  provider_slot-IsWithin job p w le = elim (Option-cases (find_provider h p.name)) [
    | inl e ↦ rw (e, provider_slot) (record { within = le })
    | inr (q, e) ↦
        rw (e, provider_slot)
          (if_ind (λ (m : Exec (Unit {0})). IsWithin n (m w))
            (ltb 0 (slots h.config.provider_concurrency p.name)) _ _
            (λ _. wait_for_slot-IsWithin job p (h.slot_waits p.name w.tick) w le)
            (λ _. record { within = le }))
  ]

  pub unavailable-IsWithin :
      (p : Provider) (w : World) → repairs_of w ≤ n → IsWithin n (unavailable h p w)
  unfolding unavailable
  unavailable-IsWithin p w le =
      IsWithin-then n (p.auth_status w.tick, record w { tick = suc w.tick }) _
        (record { within = le })
        λ auth v at.
          IsWithin-then n (p.health v.tick, record v { tick = suc v.tick }) _
            (record { within = at })
            λ health u at.
              IsWithin-then n (p.quota_or_rate_limit_state u.tick, record u { tick = suc u.tick }) _
                (record { within = at }) λ quota t at. record { within = at }

  pub end_review-IsWithin :
      (job : Job) (args : TransitionArgs) (w : World)
      → repairs_of w ≤ n
      → IsWithin n (end_review h job args w)
  unfolding end_review
  end_review-IsWithin job args w le = settle-IsWithin n _ w le

  pub stopped_with-IsWithin :
      (job : Job) (args : TransitionArgs) (w : World)
      → repairs_of w ≤ n
      → IsWithin n (stopped_with h job args w)
  stopped_with-IsWithin job args w le =
      IsWithin-then n (end_review h job args w) _ (end_review-IsWithin job args w le)
        λ j v at. record { within = at }

  pub guard-IsWithin : (job : Job) (w : World) → repairs_of w ≤ n → IsWithin n (guard h job w)
  unfolding guard
  guard-IsWithin job w le = record { within = le }
