-- ===== src/Coordinator/Run/Fenced.antt =====
-- On delivery without a lease (src/symphony/coordinator.py, src/symphony/store.py).
use openhands_symphony.Base.{
  ℕ, ◌≤◌, suc, String, Bool, false, ◌≡◌, refl, Option, some, if_ind, any, string_eq, arith,
}
use openhands_symphony.Models.{Timestamp, IssueSnapshot, Job}
use openhands_symphony.Store.Schema.{Db}
use openhands_symphony.Store.Transition.{get_or}
use openhands_symphony.Store.Lease.{is_renewable, renew_lease}
use openhands_symphony.Coordinator.Exec.{
  World, Outcome, returned, raised, Exec, continue, continue_ind,
}
use openhands_symphony.Coordinator.Agent.{ProviderResult}
use openhands_symphony.Coordinator.Host.{PullRequest, Host}
use openhands_symphony.Coordinator.Turn.{renew, require_live_lease}
use openhands_symphony.Coordinator.Run.Deliver.{push_unless, push_branch, publish}

abbrev IsStopped : World → {A : Type 0} → Outcome A × World → Type 0
IsStopped w (returned a, v) = ⊥
IsStopped w (raised f, v) = (v.db ≡ w.db) × (v.sent ≡ w.sent)

-- The call raised; the database is what it was, and nothing was sent.
pub record Fenced (w : World) {A : Type 0} (r : Outcome A × World) : Type 0 where
  pub stopped : IsStopped w r

renew_lease-none :
    (job_id owner : String) (seconds : ℕ) (now : Timestamp) (db : Db)
    → any (is_renewable job_id owner now) db.leases ≡ false
    → renew_lease job_id owner seconds now db ≡ (false, db)
unfolding renew_lease
renew_lease-none job_id owner seconds now db gone = rw gone refl

module _ (h : Host) (w : World) where
  -- From now on the worker has no live lease on the job: none, or one that has expired.
  abbrev pub LacksLease : (job_id worker : String) → Type 0
  LacksLease job_id worker =
      (tick : ℕ)
      → w.tick ≤ tick
      → any (is_renewable job_id worker (h.clock tick)) w.db.leases ≡ false

  require_live_lease-Fenced :
      (job : Job) (tick : ℕ)
      → any (is_renewable job.id (get_or job.lease_owner "") (h.clock tick)) w.db.leases ≡ false
      → Fenced w (require_live_lease h job (record w { tick = tick }))
  unfolding require_live_lease renew
  require_live_lease-Fenced job tick gone =
      rw
        (renew_lease-none job.id (get_or job.lease_owner "") h.config.lease_seconds (h.clock tick)
          w.db gone)
        (record { stopped = (refl, refl) })

  Fenced-continue :
      {A B : Type 0} (r : Outcome A × World) (k : A → World → Outcome B × World)
      → Fenced w r
      → Fenced w (continue r.0 k r.1)
  Fenced-continue (returned a, v) k e = absurd e.stopped
  Fenced-continue (raised f, v) k e = record { stopped = e.stopped }

  push_unless-Fenced :
      (job : Job) (existing : Option PullRequest) (worktree : String) (matches : Bool) (tick : ℕ)
      → any (is_renewable job.id (get_or job.lease_owner "") (h.clock tick)) w.db.leases ≡ false
      → Fenced w (push_unless h job existing worktree matches (record w { tick = tick }))
  unfolding push_unless
  push_unless-Fenced job existing worktree matches tick gone =
      Fenced-continue (require_live_lease h job (record w { tick = tick })) _
        (require_live_lease-Fenced job tick gone)

  push_branch-Fenced :
      (job : Job) (existing : Option PullRequest) (worktree : String)
      → LacksLease job.id (get_or job.lease_owner "")
      → Fenced w (push_branch h job existing worktree w)
  unfolding push_branch
  push_branch-Fenced job existing worktree gone =
      let v = record w { tick = suc w.tick } in
      continue_ind (Fenced w) (h.github.remote_branch_exists job.repository job.branch w.tick) _ v
        (λ exists.
          if_ind (λ (m : Exec (Unit {0})). Fenced w (m v)) exists _ _
            (λ _.
              continue_ind (Fenced w)
                (h.workspaces.remote_matches worktree job.repository job.branch v.tick) _
                (record w { tick = suc v.tick })
                (λ matches.
                  push_unless-Fenced job existing worktree matches (suc v.tick)
                    (gone (suc v.tick) (omega arith)))
                (λ f. record { stopped = (refl, refl) }))
            (λ _.
              push_unless-Fenced job existing worktree false v.tick (gone v.tick (omega arith))))
        (λ f. record { stopped = (refl, refl) })

  -- When the worker that the row in hand names as lease owner has no live lease on the job, at the time
  -- of the call and later by the clock, publishing raises before the push: neither the branch, nor a
  -- pull request, nor a review is sent, and the database does not change. The row in hand is the one
  -- that update_job read last: it names the worker that held the job at that read, which need not be
  -- the worker that runs the code.
  pub publish-Fenced :
      (job : Job) (live : IssueSnapshot) (existing : Option PullRequest) (worktree : String)
      (result : ProviderResult) (worker : String)
      → job.lease_owner ≡ some worker
      → LacksLease job.id worker
      → Fenced w (publish h job live existing worktree result w)
  unfolding publish push_branch
  publish-Fenced job live existing worktree result worker named gone =
      let gone' : LacksLease job.id (get_or job.lease_owner "") = rw named gone in
      Fenced-continue (push_branch h job existing worktree w) _
        (push_branch-Fenced job existing worktree gone')
