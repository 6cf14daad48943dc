-- ===== src/Store/Lease/Fencing.antt =====
-- `renew_lease` of src/symphony/store.py and workers that lost their lease.
use openhands_symphony.Base.{
  ℕ, ◌+◌, ◌≤◌, ◌<◌, String, Bool, true, false, ◌≡◌, refl, Option, List, [], ◌∷◌, string_eq, arith,
  any, delete_where, update_where, any-false_imp, any-delete_where, Bool-cases, inl, inr,
}
use openhands_symphony.Models.{Timestamp}
use openhands_symphony.Store.Schema.{Lease, Db}
use openhands_symphony.Store.Lease.{
  is_reapable, reap_expired_leases, is_renewable, extend, renew_lease,
}
use openhands_symphony.Store.Lease.Reap.{leases-reap_expired_leases}
use openhands_symphony.Store.Consistent.{IsConsistent}

-- What a refused renewal looks like: false, and nothing written.
abbrev pub Refused : Db → Bool × Db → Type 0
Refused db r = (r.0 ≡ false) × (r.1 ≡ db)

Refused-of_none :
    (job_id owner : String) (seconds : ℕ) (now : Timestamp) (db : Db)
    → any (is_renewable job_id owner now) db.leases ≡ false
    → Refused db (renew_lease job_id owner seconds now db)
unfolding renew_lease
Refused-of_none job_id owner seconds now db h = rw h (refl, refl)

not_renewable_later :
    (job_id owner : String) (now later : Timestamp) (leases : List Lease)
    → now ≤ later
    → any (is_renewable job_id owner now) leases ≡ false
    → any (is_renewable job_id owner later) leases ≡ false
not_renewable_later job_id owner now later leases le =
    any-false_imp (is_renewable job_id owner later) (is_renewable job_id owner now) leases
      (λ l h. ground arith)

renewable_after_reap :
    (job_id owner : String) (now : Timestamp) (leases : List Lease)
    → any (is_renewable job_id owner now) leases ≡ false
    → (p : Lease → Bool) → any (is_renewable job_id owner now) (delete_where p leases) ≡ false
renewable_after_reap job_id owner now leases h p =
    any-delete_where (is_renewable job_id owner now) p leases h

-- Once no live lease of the worker on the job is left, renewal is refused at every later time, also
-- after any recovery of a consistent database.
pub renew_lease_fenced :
    (job_id owner : String) (seconds : ℕ) (now reap_time later : Timestamp)
    (ids : Option (List String)) (db : Db)
    → IsConsistent db
    → any (is_renewable job_id owner now) db.leases ≡ false
    → now ≤ later
    → Refused db (renew_lease job_id owner seconds later db)
      × Refused
          (reap_expired_leases reap_time ids db).1
          (renew_lease job_id owner seconds later (reap_expired_leases reap_time ids db).1)
renew_lease_fenced job_id owner seconds now reap_time later ids db c h le =
    let still = not_renewable_later job_id owner now later db.leases le h in
    (
      Refused-of_none job_id owner seconds later db still,
      Refused-of_none job_id owner seconds later _ (
          rw (leases-reap_expired_leases reap_time ids db c)
            (renewable_after_reap job_id owner later db.leases still (is_reapable reap_time ids))),
    )

any-renewed :
    (job_id owner : String) (seconds : ℕ) (now later : Timestamp) (leases : List Lease)
    → later < now + seconds
    → any (is_renewable job_id owner now) leases ≡ true
    → any
        (is_renewable job_id owner later)
        (update_where (is_renewable job_id owner now) (extend now seconds) leases)
      ≡ true
unfolding any update_where extend
any-renewed job_id owner seconds now later [] lt h = h
any-renewed job_id owner seconds now later (l ∷ leases) lt h =
    ground (arith, any-renewed job_id owner seconds now later leases lt)

-- Heartbeats: a renewal that succeeds can be followed by another one at any time before the new
-- expiry.
pub renew_lease_again :
    (job_id owner : String) (seconds : ℕ) (now later : Timestamp) (db : Db)
    → (renew_lease job_id owner seconds now db).0 ≡ true
    → later < now + seconds
    → (renew_lease job_id owner seconds later (renew_lease job_id owner seconds now db).1).0 ≡ true
unfolding renew_lease
renew_lease_again job_id owner seconds now later db e lt =
    elim (Bool-cases (any (is_renewable job_id owner now) db.leases)) [
      | inl live ↦ rw (live, any-renewed job_id owner seconds now later db.leases lt live) refl
      | inr dead ↦ absurd (ground arith)
    ]
