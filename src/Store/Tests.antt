-- ===== src/Store/Tests.antt =====
-- The theorems on src/symphony/store.py at concrete calls.
use openhands_symphony.Base.{
  String, true, false, not, ◌≡◌, ◌≢◌, refl, Option, none, some, [], ◌∷◌, arith, find, any, ◌==◌,
  string_eq, delete_where, count_where, order_by, select,
}
use openhands_symphony.Models.{JobState, state_eq, is_active, is_terminal, Job}
use openhands_symphony.Store.Schema.{
  Db, ok, err, invalid_transition, OnOk, has_id, has_issue, holds, empty_db,
}
use openhands_symphony.Store.Samples.{
  hashing, search, snapshot, routing, queued_job, done_job, queued_db, done_db, limits, db_after,
}
use openhands_symphony.Store.Log.{record_delivery, delivery_recorded, acquire_operation_lock}
use openhands_symphony.Store.Log.Locks.{acquires, releases, attempts, lock_exclusive}
use openhands_symphony.Store.Log.Deliveries.{record_delivery_lem, record_delivery_twice}
use openhands_symphony.Store.Jobs.{new_job, ensure_job}
use openhands_symphony.Store.Jobs.Ensure.{Ensured, ensure_job-Ensured, ensure_job_again}
use openhands_symphony.Store.Transition.{
  no_args, allowed, may_move, apply_transition, write_transition, transition,
}
use openhands_symphony.Store.Transition.Legal.{Moved, transition-Moved, transition_done}
use openhands_symphony.Store.Control.{resume, cancel, pause, is_known, request_control}
use openhands_symphony.Store.Control.Legal.{
  Controlled, request_control-Controlled, Stored, done_resumed,
}
use openhands_symphony.Store.Lease.{is_renewable, is_reapable, reap_expired_leases, renew_lease}
use openhands_symphony.Store.Lease.Reap.{leases-reap_expired_leases}
use openhands_symphony.Store.Lease.Fencing.{Refused, renew_lease_fenced, renew_lease_again}
use openhands_symphony.Store.Claim.{start_run, claim_next, choose}
use openhands_symphony.Store.Claim.Sound.{ClaimResult, claim_next-ClaimResult, claim_next_returns}
use openhands_symphony.Store.Claim.Capacity.{ClaimedWithin, claim_next_within}
use openhands_symphony.Store.Consistent.{IsConsistent}
use openhands_symphony.Store.Reach.Ownership.{Handover, Step-Handover}
use openhands_symphony.Store.Reach.{Step, Reach, here, next, ensures, claims, Reach-IsConsistent}

-- Intake of an issue, and a claim of its job at time 10 for 900 seconds.
abbrev created_db : Db
created_db = db_after empty_db (ensure_job hashing "job-1" snapshot routing 5 empty_db)

abbrev claimed_db : Db
claimed_db = db_after created_db (claim_next "worker" 900 3 limits 10 created_db)

reaching : Reach hashing search empty_db created_db
unfolding ensure_job find any
reaching =
    next {db' = empty_db} here
      (ensures "job-1" snapshot routing 5 (new_job hashing "job-1" snapshot routing 5, true) refl)

claiming : Step hashing search created_db claimed_db
unfolding ensure_job claim_next find any count_where order_by select state_eq
claiming =
    claims "worker" 900 3 limits 10
      (some (start_run "worker" 900 10 (new_job hashing "job-1" snapshot routing 5))) refl

created_then_claimed : Reach hashing search empty_db claimed_db
created_then_claimed = next reaching claiming

Step-Handover_example : Handover created_db.leases claimed_db.leases
Step-Handover_example =
    Step-Handover hashing search created_db claimed_db claiming
      (Reach-IsConsistent hashing search created_db reaching)

Reach-IsConsistent_example : IsConsistent claimed_db
Reach-IsConsistent_example = Reach-IsConsistent hashing search claimed_db created_then_claimed

claim_next-ClaimResult_example :
    OnOk
      (ClaimResult "worker" 900 3 limits 10 queued_db)
      (claim_next "worker" 900 3 limits 10 queued_db)
claim_next-ClaimResult_example = claim_next-ClaimResult "worker" 900 3 limits 10 queued_db

claim_next_within_example :
    OnOk (ClaimedWithin 10 3 limits) (claim_next "worker" 900 3 limits 10 queued_db)
claim_next_within_example = claim_next_within "worker" 900 3 limits 10 queued_db

chosen : choose 10 limits queued_db ≡ some queued_job
unfolding choose find any count_where order_by select state_eq
chosen = refl

unheld : any (holds "job-1") queued_db.leases ≡ false
unfolding any
unheld = refl

claim_next_returns_example :
    (r : Option Job × Db) × (claim_next "worker" 900 3 limits 10 queued_db ≡ ok r)
claim_next_returns_example =
    claim_next_returns "worker" 900 3 limits 10 queued_db queued_job chosen unheld

abbrev canceled_job : Job
canceled_job = record queued_job {
  state = JobState.canceled;
  updated_at = 20;
  finished_at = some 20;
}

canceled :
    (db : Db) × (transition "job-1" JobState.canceled no_args 20 queued_db ≡ ok (canceled_job, db))
unfolding transition find state_eq may_move allowed apply_transition write_transition is_active
    is_terminal
canceled = (_, refl)

transition-Moved_example :
    Moved "job-1" JobState.canceled no_args queued_db (canceled_job, canceled.0)
transition-Moved_example =
    transition-Moved "job-1" JobState.canceled no_args 20 queued_db (canceled_job, canceled.0)
      canceled.1

done_found : find (has_id "job-1") done_db.jobs ≡ some done_job
unfolding find
done_found = refl

running_is_not_done : JobState.running ≢ JobState.done
running_is_not_done e = cc

transition_done_example :
    transition "job-1" JobState.running no_args 20 done_db
    ≡ err (invalid_transition JobState.done JobState.running)
transition_done_example =
    transition_done "job-1" JobState.running no_args 20 done_db done_job done_found refl
      running_is_not_done

issue_found : find (has_issue "octo/app" 7) queued_db.jobs ≡ some queued_job
unfolding find
issue_found = refl

paused : (r : Option Job × Db) × (request_control search "octo/app" 7 pause 20 queued_db ≡ ok r)
unfolding request_control find state_eq is_known
paused = (_, refl)

request_control-Controlled_example : Controlled "octo/app" 7 pause queued_db paused.0
request_control-Controlled_example =
    request_control-Controlled search "octo/app" 7 pause 20 queued_db queued_job issue_found
      paused.0 paused.1

done_issue_found : find (has_issue "octo/app" 7) done_db.jobs ≡ some done_job
unfolding find
done_issue_found = refl

done_resumed_example :
    (r : Option Job × Db) × (request_control search "octo/app" 7 cancel 20 done_db ≡ ok r)
    × Stored search "octo/app" 7 JobState.canceled r
    × ((r' : Option Job × Db) × (request_control search "octo/app" 7 resume 30 r.1 ≡ ok r')
        × Stored search "octo/app" 7 JobState.queued r')
done_resumed_example = done_resumed search "octo/app" 7 20 30 done_db done_job done_issue_found refl

claimed_db-IsConsistent : IsConsistent claimed_db
claimed_db-IsConsistent = Reach-IsConsistent hashing search claimed_db created_then_claimed

leases-reap_expired_leases_example :
    (reap_expired_leases 2000 (some ("job-1" ∷ [])) claimed_db).1.leases
    ≡ delete_where (is_reapable 2000 (some ("job-1" ∷ []))) claimed_db.leases
leases-reap_expired_leases_example =
    leases-reap_expired_leases 2000 (some ("job-1" ∷ [])) claimed_db claimed_db-IsConsistent

renewed : (renew_lease "job-1" "worker" 900 500 claimed_db).0 ≡ true
unfolding ensure_job claim_next renew_lease find any count_where order_by select state_eq
renewed = refl

renew_lease_again_example :
    (renew_lease "job-1" "worker" 900 1300 (renew_lease "job-1" "worker" 900 500 claimed_db).1).0
    ≡ true
renew_lease_again_example =
    renew_lease_again "job-1" "worker" 900 500 1300 claimed_db renewed (omega arith)

fenced : any (is_renewable "job-1" "worker" 2000) claimed_db.leases ≡ false
unfolding ensure_job claim_next find any count_where order_by select state_eq
fenced = refl

renew_lease_fenced_example :
    Refused claimed_db (renew_lease "job-1" "worker" 900 2500 claimed_db)
    × Refused
        (reap_expired_leases 2100 none claimed_db).1
        (renew_lease "job-1" "worker" 900 2500 (reap_expired_leases 2100 none claimed_db).1)
renew_lease_fenced_example =
    renew_lease_fenced "job-1" "worker" 900 2000 2100 2500 none claimed_db claimed_db-IsConsistent
      fenced (omega arith)

locked : (acquire_operation_lock "status:job-1" "worker" 900 10 empty_db).0 ≡ true
unfolding acquire_operation_lock any delete_where
locked = refl

lock_exclusive_example :
    (acquire_operation_lock "status:job-1" "intruder" 900 500 (
      attempts
        (acquires "status:job-1" "intruder" 60 400 ∷ releases "status:job-1" "intruder" ∷ [])
        (acquire_operation_lock "status:job-1" "worker" 900 10 empty_db).1)).0
    ≡ false
lock_exclusive_example =
    lock_exclusive "status:job-1" "worker" "intruder" 900 900 10 500
      (acquires "status:job-1" "intruder" 60 400 ∷ releases "status:job-1" "intruder" ∷ []) empty_db
      locked (omega arith) (omega arith, (refl, tt))

ensure_job-Ensured_example :
    OnOk
      (Ensured hashing snapshot empty_db)
      (ensure_job hashing "job-1" snapshot routing 5 empty_db)
ensure_job-Ensured_example = ensure_job-Ensured hashing "job-1" snapshot routing 5 empty_db

created :
    (db : Db) × (ensure_job hashing "job-1" snapshot routing 5 empty_db
      ≡ ok ((new_job hashing "job-1" snapshot routing 5, true), db))
unfolding ensure_job find any
created = (_, refl)

ensure_job_again_example :
    ensure_job hashing "job-2" snapshot routing 9 created.0
    ≡ ok ((new_job hashing "job-1" snapshot routing 5, false), created.0)
ensure_job_again_example =
    ensure_job_again hashing "job-1" snapshot routing 5 empty_db
      ((new_job hashing "job-1" snapshot routing 5, true), created.0) created.1 "job-2" snapshot
      routing 9 refl refl

record_delivery_lem_example :
    let db' = (record_delivery "d-1" "issues" "hash" none (some 7) 10 empty_db).1 in
    ((record_delivery "d-1" "issues" "hash" none (some 7) 10 empty_db).0
      ≡ not (delivery_recorded "d-1" empty_db))
    × (delivery_recorded "d-1" db' ≡ true)
    × ((k : String) → ("d-1" == k) ≡ false → delivery_recorded k db' ≡ delivery_recorded k empty_db)
record_delivery_lem_example = record_delivery_lem "d-1" "issues" "hash" none (some 7) 10 empty_db

record_delivery_twice_example :
    let db' = (record_delivery "d-1" "issues" "hash" none (some 7) 10 empty_db).1 in
    record_delivery "d-1" "other" "issues" none (some 8) 20 db' ≡ (false, db')
record_delivery_twice_example =
    record_delivery_twice "d-1" "issues" "hash" none (some 7) 10 empty_db "other" "issues" none
      (some 8) 20
