-- ===== src/Store/Consistent.antt =====
-- The invariant of the database of src/symphony/store.py: the keys of its schema, and the lease
-- columns of a job, which repeat what the leases table says.
pub mod Edit
pub mod Tables
pub mod Jobs
pub mod Moves
pub mod Recovery
pub mod Claims
use openhands_symphony.Base.{
  String, Bool, true, ◌≡◌, refl, Option, none, some, List, [], ◌==◌, string_eq, find, any, All,
  IsUnique,
}
use openhands_symphony.Models.{Timestamp, Job}
use openhands_symphony.Store.Schema.{
  Lease, Delivery, JobEvent, ValidationRow, Backoff, OperationLock, Db, empty_db, has_id, has_issue,
  holds, has_key,
}

abbrev pub same_id : Job → Job → Bool
same_id a b = has_id a.id b

abbrev pub same_issue : Job → Job → Bool
same_issue a b = has_issue a.repository a.issue_number b

abbrev pub same_key : Lease → Lease → Bool
same_key a b = has_key a.concurrency_key b

abbrev pub same_holder : Lease → Lease → Bool
same_holder a b = holds a.job_id b

abbrev pub same_delivery : Delivery → Delivery → Bool
same_delivery a b = b.delivery_id == a.delivery_id

abbrev pub same_provider : Backoff → Backoff → Bool
same_provider a b = b.provider == a.provider

abbrev pub same_name : OperationLock → OperationLock → Bool
same_name a b = b.name == a.name

abbrev pub owner_of : Option Lease → Option String
owner_of none = none
owner_of (some l) = some l.owner

abbrev pub expiry_of : Option Lease → Option Timestamp
expiry_of none = none
expiry_of (some l) = some l.expires_at

-- The lease columns of the job are those of its lease, and empty without one.
abbrev pub Mirrors : List Lease → Job → Type 0
Mirrors leases j =
    (j.lease_owner ≡ owner_of (find (holds j.id) leases))
    × (j.lease_expires_at ≡ expiry_of (find (holds j.id) leases))

abbrev pub Refers : List Job → String → Type 0
Refers jobs k = any (has_id k) jobs ≡ true

pub record IsConsistent (db : Db) : Type 0 where
  pub job_ids : IsUnique same_id db.jobs
  pub issues : IsUnique same_issue db.jobs
  pub lease_keys : IsUnique same_key db.leases
  pub lease_holders : IsUnique same_holder db.leases
  pub lease_refs : All (λ l. Refers db.jobs l.job_id) db.leases
  pub mirrors : All (Mirrors db.leases) db.jobs
  pub event_refs : All (λ e. Refers db.jobs e.job_id) db.job_events
  pub result_refs : All (λ v. Refers db.jobs v.job_id) db.validation_results
  pub delivery_ids : IsUnique same_delivery db.deliveries
  pub backoffs : IsUnique same_provider db.provider_backoff
  pub lock_names : IsUnique same_name db.operation_locks

-- The database after a call that also returned a value.
abbrev pub Then {ℓ} : {A : Type ℓ} → A × Db → Type 0
Then r = IsConsistent r.1

pub IsConsistent-empty_db : IsConsistent empty_db
IsConsistent-empty_db = record {
  job_ids = tt;
  issues = tt;
  lease_keys = tt;
  lease_holders = tt;
  lease_refs = tt;
  mirrors = tt;
  event_refs = tt;
  result_refs = tt;
  delivery_ids = tt;
  backoffs = tt;
  lock_names = tt;
}
