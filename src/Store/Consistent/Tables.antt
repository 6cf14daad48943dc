-- ===== src/Store/Consistent/Tables.antt =====
-- The methods of src/symphony/store.py on the other tables, against the invariant.
use openhands_symphony.Base.{
  eq_symm, ℕ, String, Bool, ◌≡◌, refl, Option, List, string_eq, any, Bool-cases, inl, inr, if_ind,
  IsUnique, IsUnique-insert_row, IsUnique-update_where, IsUnique-delete_where, All-insert_row,
  insert_row, delete_where,
}
use openhands_symphony.Models.{Timestamp, ValidationResult}
use openhands_symphony.Store.Schema.{
  Delivery, Detail, Backoff, OperationLock, Db, OnOk, has_id, ValidationRow,
}
use openhands_symphony.Store.Log.{
  has_delivery, record_delivery, record_validation, record_event, is_backoff_of,
  set_provider_backoff, is_stale, is_lock, acquire_operation_lock, release_operation_lock,
}
use openhands_symphony.Store.Consistent.{
  same_delivery, same_provider, same_name, Refers, IsConsistent,
}
use openhands_symphony.Store.Consistent.Edit.{log_event-IsConsistent}

with_deliveries :
    (db : Db) (ds : List Delivery)
    → IsUnique same_delivery ds
    → IsConsistent db
    → IsConsistent (record db { deliveries = ds })
with_deliveries db ds h c = record {
  job_ids = c.job_ids;
  issues = c.issues;
  lease_keys = c.lease_keys;
  lease_holders = c.lease_holders;
  lease_refs = c.lease_refs;
  mirrors = c.mirrors;
  event_refs = c.event_refs;
  result_refs = c.result_refs;
  delivery_ids = h;
  backoffs = c.backoffs;
  lock_names = c.lock_names;
}

with_backoffs :
    (db : Db) (bs : List Backoff)
    → IsUnique same_provider bs
    → IsConsistent db
    → IsConsistent (record db { provider_backoff = bs })
with_backoffs db bs h c = record {
  job_ids = c.job_ids;
  issues = c.issues;
  lease_keys = c.lease_keys;
  lease_holders = c.lease_holders;
  lease_refs = c.lease_refs;
  mirrors = c.mirrors;
  event_refs = c.event_refs;
  result_refs = c.result_refs;
  delivery_ids = c.delivery_ids;
  backoffs = h;
  lock_names = c.lock_names;
}

with_locks :
    (db : Db) (ls : List OperationLock)
    → IsUnique same_name ls
    → IsConsistent db
    → IsConsistent (record db { operation_locks = ls })
with_locks db ls h c = record {
  job_ids = c.job_ids;
  issues = c.issues;
  lease_keys = c.lease_keys;
  lease_holders = c.lease_holders;
  lease_refs = c.lease_refs;
  mirrors = c.mirrors;
  event_refs = c.event_refs;
  result_refs = c.result_refs;
  delivery_ids = c.delivery_ids;
  backoffs = c.backoffs;
  lock_names = h;
}

pub record_delivery-IsConsistent :
    (id name hash : String) (repository : Option String) (number : Option ℕ) (now : Timestamp)
    (db : Db)
    → IsConsistent db
    → IsConsistent (record_delivery id name hash repository number now db).1
unfolding record_delivery
record_delivery-IsConsistent id name hash repository number now db c =
    elim (Bool-cases (any (has_delivery id) db.deliveries)) [
      | inl old ↦ rw old c
      | inr new ↦ rw new (
          with_deliveries db _
            (IsUnique-insert_row same_delivery _ db.deliveries (λ d. eq_symm id d.delivery_id)
              c.delivery_ids new)
            c)
    ]

pub record_event-IsConsistent :
    (job_id kind : String) (detail : Detail) (now : Timestamp) (db : Db)
    → IsConsistent db
    → OnOk IsConsistent (record_event job_id kind detail now db)
unfolding record_event
record_event-IsConsistent job_id kind detail now db c =
    if_ind (OnOk IsConsistent) (any (has_id job_id) db.jobs) _ _
      (λ found. log_event-IsConsistent job_id now kind detail db found c) (λ _. tt)

with_result :
    (job_id : String) (row : ValidationRow) (db : Db)
    → row.job_id ≡ job_id
    → Refers db.jobs job_id
    → IsConsistent db
    → IsConsistent (record db { validation_results = insert_row row db.validation_results })
with_result job_id row db e h c = record {
  job_ids = c.job_ids;
  issues = c.issues;
  lease_keys = c.lease_keys;
  lease_holders = c.lease_holders;
  lease_refs = c.lease_refs;
  mirrors = c.mirrors;
  event_refs = c.event_refs;
  result_refs = All-insert_row _ row db.validation_results c.result_refs (rw e h);
  delivery_ids = c.delivery_ids;
  backoffs = c.backoffs;
  lock_names = c.lock_names;
}

pub record_validation-IsConsistent :
    (job_id : String) (attempt : ℕ) (result : ValidationResult) (db : Db)
    → IsConsistent db
    → OnOk IsConsistent (record_validation job_id attempt result db)
unfolding record_validation
record_validation-IsConsistent job_id attempt result db c =
    if_ind (OnOk IsConsistent) (any (has_id job_id) db.jobs) _ _
      (λ found. with_result job_id _ db refl found c) (λ _. tt)

pub set_provider_backoff-IsConsistent :
    (provider reason : String) (seconds : ℕ) (now : Timestamp) (db : Db)
    → IsConsistent db
    → IsConsistent (set_provider_backoff provider reason seconds now db)
unfolding set_provider_backoff
set_provider_backoff-IsConsistent provider reason seconds now db c =
    with_backoffs db _
      (if_ind (IsUnique same_provider) (any (is_backoff_of provider) db.provider_backoff) _ _
        (λ _.
          IsUnique-update_where same_provider (is_backoff_of provider) _ db.provider_backoff
            (λ x y. refl) (λ x y. refl) c.backoffs)
        (λ new.
          IsUnique-insert_row same_provider _ db.provider_backoff (λ b. eq_symm provider b.provider)
            c.backoffs new))
      c

pub acquire_operation_lock-IsConsistent :
    (name owner : String) (seconds : ℕ) (now : Timestamp) (db : Db)
    → IsConsistent db
    → IsConsistent (acquire_operation_lock name owner seconds now db).1
unfolding acquire_operation_lock
acquire_operation_lock-IsConsistent name owner seconds now db c =
    let live = delete_where (is_stale now) db.operation_locks in
    let unique = IsUnique-delete_where same_name (is_stale now) db.operation_locks c.lock_names in
    if_ind (λ (r : Bool × Db). IsConsistent r.1) (any (is_lock name) live) _ _
      (λ _. with_locks db live unique c)
      (λ new.
        with_locks db _ (IsUnique-insert_row same_name _ live (λ l. eq_symm name l.name) unique new)
          c)

pub release_operation_lock-IsConsistent :
    (name owner : String) (db : Db)
    → IsConsistent db
    → IsConsistent (release_operation_lock name owner db)
unfolding release_operation_lock
release_operation_lock-IsConsistent name owner db c =
    with_locks db _ (IsUnique-delete_where same_name _ db.operation_locks c.lock_names) c
