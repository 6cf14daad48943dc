-- ===== src/Store/Reach.antt =====
-- The life of a database of src/symphony/store.py: any calls, in any order, at any times, by any
-- number of processes, since each call is one transaction.
pub mod Ownership
pub mod Deliveries
pub mod Recorded
use openhands_symphony.Base.{ℕ, String, Bool, ◌≡◌, sym, subst, Option, List}
use openhands_symphony.Models.{Timestamp, JobState, IssueSnapshot, ValidationResult, Hashing, Job}
use openhands_symphony.Store.Schema.{Detail, Db, empty_db, ok, OnOk-elim}
use openhands_symphony.Store.Log.{
  record_delivery, record_validation, record_event, set_provider_backoff, acquire_operation_lock,
  release_operation_lock,
}
use openhands_symphony.Store.Jobs.{
  Routing, Assignment, ensure_job, update_snapshot_if_unclaimed, accept_snapshot, begin_attempt,
  update_job,
}
use openhands_symphony.Store.Transition.{TransitionArgs, transition}
use openhands_symphony.Store.Control.{EventSearch, Command, request_control}
use openhands_symphony.Store.Lease.{reap_expired_leases, renew_lease}
use openhands_symphony.Store.Claim.{claim_next}
use openhands_symphony.Store.Consistent.{IsConsistent, Then, IsConsistent-empty_db}
use openhands_symphony.Store.Consistent.Tables.{
  record_delivery-IsConsistent, record_event-IsConsistent, record_validation-IsConsistent,
  set_provider_backoff-IsConsistent, acquire_operation_lock-IsConsistent,
  release_operation_lock-IsConsistent,
}
use openhands_symphony.Store.Consistent.Jobs.{
  ensure_job-IsConsistent, update_snapshot_if_unclaimed-IsConsistent, accept_snapshot-IsConsistent,
  begin_attempt-IsConsistent, update_job-IsConsistent,
}
use openhands_symphony.Store.Consistent.Moves.{
  transition-IsConsistent, request_control-IsConsistent,
}
use openhands_symphony.Store.Consistent.Recovery.{reap_expired_leases-IsConsistent}
use openhands_symphony.Store.Consistent.Claims.{renew_lease-IsConsistent, claim_next-IsConsistent}

module _ (h : Hashing) (search_in : EventSearch) where
  -- One committed call. A call that raised is rolled back and is no step.
  pub data Step (db : Db) (db' : Db) : Type 0 where
    ensures :
        (id : String) (s : IssueSnapshot) (r : Routing) (now : Timestamp) (out : Job × Bool)
        → ensure_job h id s r now db ≡ ok (out, db')
        → Step db db'
    refreshes :
        (s : IssueSnapshot) (r : Routing) (now : Timestamp)
        → db' ≡ (update_snapshot_if_unclaimed h s r now db).1
        → Step db db'
    accepts :
        (id : String) (s : IssueSnapshot) (now later : Timestamp) (out : Job)
        → accept_snapshot h id s now later db ≡ ok (out, db')
        → Step db db'
    begins :
        (id : String) (conversation_id session_id : Option String) (now : Timestamp) (out : Job)
        → begin_attempt id conversation_id session_id now db ≡ ok (out, db')
        → Step db db'
    updates :
        (id : String) (values : List Assignment) (now : Timestamp) (out : Job)
        → update_job id values now db ≡ ok (out, db')
        → Step db db'
    moves :
        (id : String) (s : JobState) (args : TransitionArgs) (now : Timestamp) (out : Job)
        → transition id s args now db ≡ ok (out, db')
        → Step db db'
    controls :
        (repository : String) (n : ℕ) (command : Command) (now : Timestamp) (out : Option Job)
        → request_control search_in repository n command now db ≡ ok (out, db')
        → Step db db'
    reaps :
        (now : Timestamp) (ids : Option (List String))
        → db' ≡ (reap_expired_leases now ids db).1
        → Step db db'
    renews :
        (id owner : String) (seconds : ℕ) (now : Timestamp)
        → db' ≡ (renew_lease id owner seconds now db).1
        → Step db db'
    claims :
        (owner : String) (seconds global_limit : ℕ) (limits : List (String × ℕ)) (now : Timestamp)
        (out : Option Job)
        → claim_next owner seconds global_limit limits now db ≡ ok (out, db')
        → Step db db'
    delivers :
        (id name hash : String) (repository : Option String) (n : Option ℕ) (now : Timestamp)
        → db' ≡ (record_delivery id name hash repository n now db).1
        → Step db db'
    validates :
        (id : String) (attempt : ℕ) (result : ValidationResult)
        → record_validation id attempt result db ≡ ok db'
        → Step db db'
    logs :
        (id kind : String) (detail : Detail) (now : Timestamp)
        → record_event id kind detail now db ≡ ok db'
        → Step db db'
    backs_off :
        (provider reason : String) (seconds : ℕ) (now : Timestamp)
        → db' ≡ set_provider_backoff provider reason seconds now db
        → Step db db'
    locks :
        (name owner : String) (seconds : ℕ) (now : Timestamp)
        → db' ≡ (acquire_operation_lock name owner seconds now db).1
        → Step db db'
    unlocks : (name owner : String) → db' ≡ release_operation_lock name owner db → Step db db'

  pub data Reach (db : Db) : Db → Type 0 where
    here : Reach db db
    next : {db' db'' : Db} → Reach db db' → Step db' db'' → Reach db db''

  -- Every operation of the store that commits keeps the invariant.
  pub Step-IsConsistent : (db db' : Db) → Step db db' → IsConsistent db → IsConsistent db'
  Step-IsConsistent db db' (ensures id s r now out e) c =
      OnOk-elim Then (ensure_job h id s r now db) (out, db') e
        (ensure_job-IsConsistent h id s r now db c)
  Step-IsConsistent db db' (refreshes s r now e) c =
      subst IsConsistent (sym e) (update_snapshot_if_unclaimed-IsConsistent h s r now db c)
  Step-IsConsistent db db' (accepts id s now later out e) c =
      OnOk-elim Then (accept_snapshot h id s now later db) (out, db') e
        (accept_snapshot-IsConsistent h id s now later db c)
  Step-IsConsistent db db' (begins id conversation_id session_id now out e) c =
      OnOk-elim Then (begin_attempt id conversation_id session_id now db) (out, db') e
        (begin_attempt-IsConsistent id conversation_id session_id now db c)
  Step-IsConsistent db db' (updates id values now out e) c =
      OnOk-elim Then (update_job id values now db) (out, db') e
        (update_job-IsConsistent id values now db c)
  Step-IsConsistent db db' (moves id s args now out e) c =
      OnOk-elim Then (transition id s args now db) (out, db') e
        (transition-IsConsistent id s args now db c)
  Step-IsConsistent db db' (controls repository n command now out e) c =
      OnOk-elim Then (request_control search_in repository n command now db) (out, db') e
        (request_control-IsConsistent search_in repository n command now db c)
  Step-IsConsistent db db' (reaps now ids e) c =
      subst IsConsistent (sym e) (reap_expired_leases-IsConsistent now ids db c)
  Step-IsConsistent db db' (renews id owner seconds now e) c =
      subst IsConsistent (sym e) (renew_lease-IsConsistent id owner seconds now db c)
  Step-IsConsistent db db' (claims owner seconds global_limit limits now out e) c =
      OnOk-elim Then (claim_next owner seconds global_limit limits now db) (out, db') e
        (claim_next-IsConsistent owner seconds global_limit limits now db c)
  Step-IsConsistent db db' (delivers id name hash repository n now e) c =
      subst IsConsistent (sym e) (record_delivery-IsConsistent id name hash repository n now db c)
  Step-IsConsistent db db' (validates id attempt result e) c =
      OnOk-elim IsConsistent (record_validation id attempt result db) db' e
        (record_validation-IsConsistent id attempt result db c)
  Step-IsConsistent db db' (logs id kind detail now e) c =
      OnOk-elim IsConsistent (record_event id kind detail now db) db' e
        (record_event-IsConsistent id kind detail now db c)
  Step-IsConsistent db db' (backs_off provider reason seconds now e) c =
      subst IsConsistent (sym e)
        (set_provider_backoff-IsConsistent provider reason seconds now db c)
  Step-IsConsistent db db' (locks name owner seconds now e) c =
      subst IsConsistent (sym e) (acquire_operation_lock-IsConsistent name owner seconds now db c)
  Step-IsConsistent db db' (unlocks name owner e) c =
      subst IsConsistent (sym e) (release_operation_lock-IsConsistent name owner db c)

  -- Whatever calls were made on a new database, it is consistent: the keys of the schema are unique,
  -- leases, events and results refer to jobs, and the lease columns of each job are those of the
  -- lease table.
  pub Reach-IsConsistent : (db : Db) → Reach empty_db db → IsConsistent db
  Reach-IsConsistent db here = IsConsistent-empty_db
  Reach-IsConsistent db (next {db' = d} r st) = Step-IsConsistent d db st (Reach-IsConsistent d r)
