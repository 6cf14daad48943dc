-- ===== src/Store/Log.antt =====
-- The tables of src/symphony/store.py beside jobs and leases: deliveries, events, validation
-- results, provider backoff and the operation locks.
pub mod Locks
pub mod Deliveries
use openhands_symphony.Base.{
  ℕ, ◌+◌, String, Bool, true, false, Option, List, ◌&&◌, ◌==◌, string_eq, leb, if◌then◌else◌, any,
  select, update_where, delete_where, insert_row,
}
use openhands_symphony.Models.{Timestamp, ValidationResult}
use openhands_symphony.Store.Schema.{
  Delivery, Detail, JobEvent, ValidationRow, Backoff, OperationLock, Db, Result, ok, err,
  integrity_error, has_id,
}

-- `INSERT INTO job_events`
unfoldable pub log_event : String → Timestamp → String → Detail → Db → Db
log_event job_id at kind detail db = record db {
  job_events =
      insert_row (record { job_id = job_id; at = at; kind = kind; detail = detail }) db.job_events;
}

abbrev pub has_delivery : String → Delivery → Bool
has_delivery k d = d.delivery_id == k

-- `INSERT OR IGNORE` reports one row exactly if the primary key was free.
unfoldable pub record_delivery :
    String → String → String → Option String → Option ℕ → Timestamp → Db → Bool × Db
record_delivery delivery_id event_name payload_hash repository issue_number now db =
    if any (has_delivery delivery_id) db.deliveries
    then (false, db)
    else (true, record db { deliveries = insert_row delivery db.deliveries })
  where
    delivery : Delivery
    delivery = record {
      delivery_id = delivery_id;
      event_name = event_name;
      repository = repository;
      issue_number = issue_number;
      received_at = now;
      payload_hash = payload_hash;
    }

unfoldable pub delivery_recorded : String → Db → Bool
delivery_recorded delivery_id db = any (has_delivery delivery_id) db.deliveries

-- Events and validation results refer to a job: without one the foreign key refuses the row.
unfoldable pub record_validation : String → ℕ → ValidationResult → Db → Result Db
record_validation job_id attempt result db =
    if any (has_id job_id) db.jobs
    then ok (record db {
      validation_results =
          insert_row (record { job_id = job_id; attempt = attempt; result = result })
            db.validation_results;
    })
    else err integrity_error

unfoldable pub validations : String → Db → List ValidationRow
validations job_id db = select (λ v. v.job_id == job_id) db.validation_results

unfoldable pub events : String → Db → List JobEvent
events job_id db = select (λ e. e.job_id == job_id) db.job_events

unfoldable pub record_event : String → String → Detail → Timestamp → Db → Result Db
unfolding log_event
record_event job_id kind detail now db =
    if any (has_id job_id) db.jobs
    then ok (log_event job_id now kind detail db)
    else err integrity_error

abbrev pub is_backoff_of : String → Backoff → Bool
is_backoff_of provider b = b.provider == provider

-- An upsert on the primary key `provider`.
unfoldable pub set_provider_backoff : String → String → ℕ → Timestamp → Db → Db
set_provider_backoff provider reason seconds now db = record db {
  provider_backoff =
      if any (is_backoff_of provider) db.provider_backoff
      then update_where (is_backoff_of provider) replace db.provider_backoff
      else insert_row row db.provider_backoff;
}
  where
    row : Backoff
    row = record {
      provider = provider;
      reason = reason;
      until_at = now + seconds;
      updated_at = now;
    }

    replace : Backoff → Backoff
    replace b = record b { reason = reason; until_at = now + seconds; updated_at = now }

abbrev pub is_stale : Timestamp → OperationLock → Bool
is_stale now l = leb l.expires_at now

abbrev pub is_lock : String → OperationLock → Bool
is_lock name l = l.name == name

-- Stale locks go first; then `INSERT OR IGNORE` on the primary key `name`.
unfoldable pub acquire_operation_lock : String → String → ℕ → Timestamp → Db → Bool × Db
acquire_operation_lock name owner seconds now db =
    let live = delete_where (is_stale now) db.operation_locks in
    if any (is_lock name) live then (false, record db { operation_locks = live }) else (
      true,
      record db {
        operation_locks =
            insert_row (record { name = name; owner = owner; expires_at = now + seconds }) live;
      },
    )

unfoldable pub release_operation_lock : String → String → Db → Db
release_operation_lock name owner db = record db {
  operation_locks = delete_where (λ l. l.name == name && l.owner == owner) db.operation_locks;
}
