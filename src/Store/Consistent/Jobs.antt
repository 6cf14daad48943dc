-- ===== src/Store/Consistent/Jobs.antt =====
-- The methods of src/symphony/store.py that create and rewrite jobs, against the invariant.
use openhands_symphony.Base.{
  eq_symm, String, false, ◌≡◌, refl, ◌∙◌, Option, List, [], ◌∷◌, ◌==◌, string_eq, nat_eq, arith,
  eq_iff, any, find, Bool-cases, Option-cases, List-cases, inl, inr, if_ind, IsUnique-insert_row,
  All, All-insert_row, All-imp, insert_row, any_of_find, find_of_any-false, subst, eq_refl,
  any-insert_row, find-none, update_where,
}
use openhands_symphony.Models.{Timestamp, JobState, state_eq, IssueSnapshot, Hashing, Job}
use openhands_symphony.Store.Schema.{Lease, Db, OnOk, has_id, has_issue, holds}
use openhands_symphony.Store.Jobs.{
  Routing, Assignment, set_worktree, new_job, ensure_job, is_unclaimed,
  update_snapshot_if_unclaimed, accept, accept_snapshot, start_attempt, begin_attempt, assign,
  assign_all, write_fields, unsupported, update_job,
}
use openhands_symphony.Store.Consistent.{same_id, same_issue, Mirrors, Refers, IsConsistent, Then}
use openhands_symphony.Store.Consistent.Edit.{
  KeepsKeys, Refers-update, rewrite-IsConsistent, log_event-IsConsistent,
}

Refers-insert :
    (job : Job) (jobs : List Job) (k : String) → Refers jobs k → Refers (insert_row job jobs) k
Refers-insert job jobs k h = any-insert_row (has_id k) job jobs ∙ ground arith

-- A job that is not there has no lease.
unreferenced :
    (k : String) (jobs : List Job) (leases : List Lease)
    → any (has_id k) jobs ≡ false
    → All (λ l. Refers jobs l.job_id) leases
    → any (holds k) leases ≡ false
unfolding any
unreferenced k jobs [] fresh refs = refl
unreferenced k jobs (l ∷ leases) fresh refs = elim (Bool-cases (l.job_id == k)) [
  | inl same ↦ cc (fresh, subst (Refers jobs) ((eq_iff l.job_id k).0 same) refs.0)
  | inr other ↦ rw other (unreferenced k jobs leases fresh refs.1)
]

module _ (h : Hashing) where
  pub update_snapshot_if_unclaimed-IsConsistent :
      (snapshot : IssueSnapshot) (routing : Routing) (now : Timestamp) (db : Db)
      → IsConsistent db
      → IsConsistent (update_snapshot_if_unclaimed h snapshot routing now db).1
  unfolding update_snapshot_if_unclaimed
  update_snapshot_if_unclaimed-IsConsistent snapshot routing now db =
      rewrite-IsConsistent
        (record { id = λ j. refl; repository = λ j. refl; issue_number = λ j. refl })
        (is_unclaimed snapshot) db (λ j. refl) (λ j. refl)

  pub accept_snapshot-IsConsistent :
      (job_id : String) (snapshot : IssueSnapshot) (now later : Timestamp) (db : Db)
      → IsConsistent db
      → OnOk Then (accept_snapshot h job_id snapshot now later db)
  unfolding accept_snapshot
  accept_snapshot-IsConsistent job_id snapshot now later db c =
      elim (Option-cases (find (has_id job_id) db.jobs)) [
        | inl e ↦ rw (e, accept_snapshot) tt
        | inr (row, e) ↦
            rw (e, accept_snapshot)
              (if_ind (OnOk Then) (state_eq row.state JobState.queued) _ _
                (λ _.
                  log_event-IsConsistent job_id later _ _ _
                    (Refers-update keeps (has_id job_id) db.jobs job_id (any_of_find _ _ row e))
                    (rewrite-IsConsistent keeps (has_id job_id) db (λ j. refl) (λ j. refl) c))
                (λ _. tt))
      ]
    where
      keeps : KeepsKeys (accept h snapshot now)
      keeps = record { id = λ j. refl; repository = λ j. refl; issue_number = λ j. refl }

  new_row :
      (job_id : String) (snapshot : IssueSnapshot) (routing : Routing) (now : Timestamp) (db : Db)
      → any (has_issue snapshot.repository snapshot.number) db.jobs ≡ false
      → any (has_id job_id) db.jobs ≡ false
      → IsConsistent db
      → IsConsistent
          (record db { jobs = insert_row (new_job h job_id snapshot routing now) db.jobs })
  unfolding new_job
  new_row job_id snapshot routing now db fresh_issue fresh_id c = record {
    job_ids = IsUnique-insert_row same_id job db.jobs (λ j. eq_symm job_id j.id) c.job_ids fresh_id;
    issues =
        IsUnique-insert_row same_issue job db.jobs
          (λ j. ground (
            arith,
            eq_iff snapshot.repository j.repository,
            eq_iff j.repository snapshot.repository,
          ))
          c.issues fresh_issue;
    lease_keys = c.lease_keys;
    lease_holders = c.lease_holders;
    lease_refs = All-imp _ _ db.leases (λ l. Refers-insert job db.jobs l.job_id) c.lease_refs;
    mirrors = All-insert_row (Mirrors db.leases) job db.jobs c.mirrors (
        let none_yet =
          find_of_any-false _ _ (unreferenced job_id db.jobs db.leases fresh_id c.lease_refs) in
        (rw none_yet refl, rw none_yet refl));
    event_refs = All-imp _ _ db.job_events (λ e. Refers-insert job db.jobs e.job_id) c.event_refs;
    result_refs =
        All-imp _ _ db.validation_results (λ v. Refers-insert job db.jobs v.job_id) c.result_refs;
    delivery_ids = c.delivery_ids;
    backoffs = c.backoffs;
    lock_names = c.lock_names;
  }
    where
      job : Job
      job = new_job h job_id snapshot routing now

  pub ensure_job-IsConsistent :
      (job_id : String) (snapshot : IssueSnapshot) (routing : Routing) (now : Timestamp) (db : Db)
      → IsConsistent db
      → OnOk Then (ensure_job h job_id snapshot routing now db)
  unfolding ensure_job
  ensure_job-IsConsistent job_id snapshot routing now db c =
      elim (Option-cases (find (has_issue snapshot.repository snapshot.number) db.jobs)) [
        | inr (row, e) ↦ rw (e, ensure_job) c
        | inl e ↦
            rw (e, ensure_job)
              (if_ind (OnOk Then) (any (has_id job_id) db.jobs) _ _ (λ _. tt)
                (λ fresh_id.
                  log_event-IsConsistent job_id now _ _ _
                    (any-insert_row (has_id job_id) _ db.jobs
                      ∙ ground (arith, eq_refl job_id, fresh_id))
                    (new_row job_id snapshot routing now db (find-none _ _ e) fresh_id c)))
      ]

pub begin_attempt-IsConsistent :
    (job_id : String) (conversation_id session_id : Option String) (now : Timestamp) (db : Db)
    → IsConsistent db
    → OnOk Then (begin_attempt job_id conversation_id session_id now db)
unfolding begin_attempt
begin_attempt-IsConsistent job_id conversation_id session_id now db c =
    elim (Option-cases (find (has_id job_id) db.jobs)) [
      | inl e ↦ rw (e, begin_attempt) tt
      | inr (row, e) ↦
          rw (e, begin_attempt)
            (if_ind (OnOk Then) (state_eq row.state JobState.running) _ _
              (λ _.
                log_event-IsConsistent job_id now _ _ _
                  (Refers-update keeps (has_id job_id) db.jobs job_id (any_of_find _ _ row e))
                  (rewrite-IsConsistent keeps (has_id job_id) db (λ j. refl) (λ j. refl) c))
              (λ _. tt))
    ]
  where
    keeps : KeepsKeys (start_attempt conversation_id session_id now)
    keeps = record { id = λ j. refl; repository = λ j. refl; issue_number = λ j. refl }

-- No assignment of `update_job` reaches the keys or the lease columns.
abbrev Untouched : Job → Job → Type 0
Untouched j j' =
    (j'.id ≡ j.id)
    × (j'.repository ≡ j.repository)
    × (j'.issue_number ≡ j.issue_number)
    × (j'.lease_owner ≡ j.lease_owner)
    × (j'.lease_expires_at ≡ j.lease_expires_at)

assign-Untouched : (a : Assignment) (j : Job) → Untouched j (assign a j)
unfolding assign
assign-Untouched (set_worktree v) j = (refl, refl, refl, refl, refl)
assign-Untouched _ j = (refl, refl, refl, refl, refl)

assign_all-Untouched : (values : List Assignment) (j : Job) → Untouched j (assign_all values j)
unfolding assign_all
assign_all-Untouched [] j = (refl, refl, refl, refl, refl)
assign_all-Untouched (a ∷ rest) j =
    let (id, repository, number, owner, expiry) = assign_all-Untouched rest (assign a j) in
    let (id', repository', number', owner', expiry') = assign-Untouched a j in
    (id ∙ id', repository ∙ repository', number ∙ number', owner ∙ owner', expiry ∙ expiry')

pub update_job-IsConsistent :
    (job_id : String) (values : List Assignment) (now : Timestamp) (db : Db)
    → IsConsistent db
    → OnOk Then (update_job job_id values now db)
unfolding update_job
update_job-IsConsistent job_id values now db c = elim (List-cases (unsupported values)) [
  | inr (name, (names, e)) ↦ rw (e, update_job) tt
  | inl e ↦
      elim (Option-cases
        (find (has_id job_id) (update_where (has_id job_id) (write_fields values now) db.jobs))) [
          | inl missing ↦ rw (e, missing, update_job) tt
          | inr (row, found) ↦
              rw (e, found, update_job)
                (rewrite-IsConsistent
                  (record {
                    id = λ j. (assign_all-Untouched values j).0;
                    repository = λ j. (assign_all-Untouched values j).1;
                    issue_number = λ j. (assign_all-Untouched values j).2;
                  })
                  (has_id job_id) db (λ j. (assign_all-Untouched values j).3)
                  (λ j. (assign_all-Untouched values j).4) c)
        ]
]
