-- ===== src/Store/Consistent/Edit.antt =====
-- Rewriting rows of the jobs table, with and without a release, against the invariant.
use openhands_symphony.Base.{
  any, eq_refl, if◌then◌else◌, [], ◌∷◌, String, Bool, true, false, ◌≡◌, ◌∙◌, none, List, ◌==◌,
  string_eq, arith, eq_iff, find, All, update_where, delete_where, any-update_where,
  any-delete_where_self, find_of_any-false, find-delete_where, All-insert_row, All-imp,
  All-delete_where, All-update_where, IsUnique, IsUnique-update_where, IsUnique-delete_where,
}
use openhands_symphony.Models.{Timestamp, Job}
use openhands_symphony.Store.Schema.{Lease, Detail, Db, has_id, holds}
use openhands_symphony.Store.Log.{log_event}
use openhands_symphony.Store.Consistent.{
  same_id, same_issue, same_key, same_holder, Mirrors, Refers, IsConsistent,
}

-- `f` leaves the keys of a row alone.
pub record KeepsKeys (f : Job → Job) : Type 0 where
  pub id : (j : Job) → (f j).id ≡ j.id
  pub repository : (j : Job) → (f j).repository ≡ j.repository
  pub issue_number : (j : Job) → (f j).issue_number ≡ j.issue_number

module _ {f : Job → Job} (keeps : KeepsKeys f) (q : Job → Bool) where
  pub Refers-update :
      (jobs : List Job) (k : String) → Refers jobs k → Refers (update_where q f jobs) k
  Refers-update jobs k h = any-update_where (has_id k) q f jobs (λ j. rw (keeps.id j)) ∙ h

  jobs-IsUnique :
      (jobs : List Job) → IsUnique same_id jobs → IsUnique same_id (update_where q f jobs)
  jobs-IsUnique jobs =
      IsUnique-update_where same_id q f jobs (λ x y. rw (keeps.id y)) (λ x y. rw (keeps.id x))

  issues-IsUnique :
      (jobs : List Job) → IsUnique same_issue jobs → IsUnique same_issue (update_where q f jobs)
  issues-IsUnique jobs =
      IsUnique-update_where same_issue q f jobs
        (λ x y. rw (keeps.repository y, keeps.issue_number y))
        (λ x y. rw (keeps.repository x, keeps.issue_number x))

  -- The general rule: the rows change, and the leases may.
  pub edit-IsConsistent :
      (db : Db) (leases : List Lease)
      → IsConsistent db
      → IsUnique same_key leases
      → IsUnique same_holder leases
      → All (λ l. Refers db.jobs l.job_id) leases
      → ((j : Job) → q j ≡ true → Mirrors db.leases j → Mirrors leases (f j))
      → ((j : Job) → q j ≡ false → Mirrors db.leases j → Mirrors leases j)
      → IsConsistent (record db { jobs = update_where q f db.jobs; leases = leases })
  edit-IsConsistent db leases c keys holders refs hit miss = record {
    job_ids = jobs-IsUnique db.jobs c.job_ids;
    issues = issues-IsUnique db.jobs c.issues;
    lease_keys = keys;
    lease_holders = holders;
    lease_refs = All-imp _ _ leases (λ l. Refers-update db.jobs l.job_id) refs;
    mirrors = All-update_where (Mirrors db.leases) (Mirrors leases) q f db.jobs hit miss c.mirrors;
    event_refs = All-imp _ _ db.job_events (λ e. Refers-update db.jobs e.job_id) c.event_refs;
    result_refs =
        All-imp _ _ db.validation_results (λ v. Refers-update db.jobs v.job_id) c.result_refs;
    delivery_ids = c.delivery_ids;
    backoffs = c.backoffs;
    lock_names = c.lock_names;
  }

  -- The leases and the lease columns stay as they are.
  pub rewrite-IsConsistent :
      (db : Db)
      → ((j : Job) → (f j).lease_owner ≡ j.lease_owner)
      → ((j : Job) → (f j).lease_expires_at ≡ j.lease_expires_at)
      → IsConsistent db
      → IsConsistent (record db { jobs = update_where q f db.jobs })
  rewrite-IsConsistent db owner expiry c =
      edit-IsConsistent db db.leases c c.lease_keys c.lease_holders c.lease_refs
        (λ j e m. (rw (keeps.id j) (owner j ∙ m.0), rw (keeps.id j) (expiry j ∙ m.1))) (λ j e m. m)

no_lease :
    (k j : String) (leases : List Lease)
    → j ≡ k
    → find (holds j) (delete_where (holds k) leases) ≡ none
no_lease k j leases e =
    rw e (find_of_any-false (holds k) _ (any-delete_where_self (holds k) leases))

other_lease :
    (k j : String) (leases : List Lease)
    → (j == k) ≡ false
    → find (holds j) (delete_where (holds k) leases) ≡ find (holds j) leases
other_lease k j leases e =
    find-delete_where (holds j) (holds k) leases
      (λ l h. ground (arith, eq_iff l.job_id j, eq_iff l.job_id k, eq_iff j k))

module _ {f : Job → Job} (keeps : KeepsKeys f) (k : String) where
  -- The lease of the job `k` goes, and its lease columns are cleared.
  pub release-IsConsistent :
      (db : Db)
      → ((j : Job) → (f j).lease_owner ≡ none)
      → ((j : Job) → (f j).lease_expires_at ≡ none)
      → IsConsistent db
      → IsConsistent (record db {
        jobs = update_where (has_id k) f db.jobs;
        leases = delete_where (holds k) db.leases;
      })
  release-IsConsistent db owner expiry c =
      edit-IsConsistent keeps (has_id k) db (delete_where (holds k) db.leases) c
        (IsUnique-delete_where same_key (holds k) db.leases c.lease_keys)
        (IsUnique-delete_where same_holder (holds k) db.leases c.lease_holders)
        (All-delete_where _ (holds k) db.leases c.lease_refs)
        (λ j e m.
          let gone = no_lease k (f j).id db.leases (keeps.id j ∙ (eq_iff j.id k).0 e) in
          (rw gone (owner j), rw gone (expiry j)))
        (λ j e m. let kept = other_lease k j.id db.leases e in (rw kept m.0, rw kept m.1))

-- An event about a job that is there.
pub log_event-IsConsistent :
    (job_id : String) (at : Timestamp) (kind : String) (detail : Detail) (db : Db)
    → Refers db.jobs job_id
    → IsConsistent db
    → IsConsistent (log_event job_id at kind detail db)
unfolding log_event
log_event-IsConsistent job_id at kind detail db h c = record {
  job_ids = c.job_ids;
  issues = c.issues;
  lease_keys = c.lease_keys;
  lease_holders = c.lease_holders;
  lease_refs = c.lease_refs;
  mirrors = c.mirrors;
  event_refs = All-insert_row _ _ db.job_events c.event_refs h;
  result_refs = c.result_refs;
  delivery_ids = c.delivery_ids;
  backoffs = c.backoffs;
  lock_names = c.lock_names;
}

-- The job of a row that a query returned is in the table.
pub Refers-self : (jobs : List Job) → All (λ j. Refers jobs j.id) jobs
unfolding any
Refers-self [] = tt
Refers-self (x ∷ jobs) =
    (ground (arith, eq_refl x.id), All-imp _ _ jobs (λ j h. ground arith) (Refers-self jobs))

module _ (k : String) (f : Job → Job) (keeps : KeepsKeys f) where
  -- An update of the job `k` that clears its lease columns just when its lease is deleted.
  pub settle-IsConsistent :
      (release : Bool) (db : Db)
      → ((j : Job) → (f j).lease_owner ≡ (if release then none else j.lease_owner))
      → ((j : Job) → (f j).lease_expires_at ≡ (if release then none else j.lease_expires_at))
      → IsConsistent db
      → IsConsistent (record db {
        jobs = update_where (has_id k) f db.jobs;
        leases = if release then delete_where (holds k) db.leases else db.leases;
      })
  settle-IsConsistent true db owner expiry c = release-IsConsistent keeps k db owner expiry c
  settle-IsConsistent false db owner expiry c =
      rewrite-IsConsistent keeps (has_id k) db owner expiry c
