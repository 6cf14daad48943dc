-- ===== src/Store/Jobs/Ensure.antt =====
-- On `ensure_job` of src/symphony/store.py.
use openhands_symphony.Base.{
  String, Bool, true, false, ◌≡◌, refl, none, some, string_eq, nat_eq, arith, eq_refl, any, find,
  find-insert_row_new, find-none, [], ◌∷◌, ◌++◌, Option-cases, inl, inr, if_ind,
}
use openhands_symphony.Models.{Timestamp, JobState, IssueSnapshot, Hashing, Job}
use openhands_symphony.Store.Schema.{Db, ok, OnOk, OnOk-elim, has_id, has_issue}
use openhands_symphony.Store.Jobs.{Routing, new_job, get_job, ensure_job}

module _ (h : Hashing) where
  -- The stored job of the issue is the one returned; a new one is queued, unclaimed and unleased, and
  -- an old one is the one that was there, in an unchanged database.
  pub record Ensured (snapshot : IssueSnapshot) (db : Db) (r : (Job × Bool) × Db) : Type 0 where
    pub stored : get_job snapshot.repository snapshot.number r.1 ≡ some r.0.0
    pub created :
        (r.0.1 ≡ true)
        → (get_job snapshot.repository snapshot.number db ≡ none)
          × (r.0.0.state ≡ JobState.queued)
          × (r.0.0.attempt ≡ 0)
          × (r.0.0.lease_owner ≡ none)
    pub kept : (r.0.1 ≡ false) → r.1 ≡ db

  Ensured-new :
      (job_id : String) (snapshot : IssueSnapshot) (routing : Routing) (now : Timestamp) (db : Db)
      (db' : Db)
      → find (has_issue snapshot.repository snapshot.number) db.jobs ≡ none
      → db'.jobs ≡ db.jobs ++ new_job h job_id snapshot routing now ∷ []
      → Ensured snapshot db ((new_job h job_id snapshot routing now, true), db')
  unfolding get_job new_job
  Ensured-new job_id snapshot routing now db db' e grown = record {
    stored = rw grown (
        find-insert_row_new (has_issue snapshot.repository snapshot.number) _ db.jobs
          (find-none _ db.jobs e) (ground (arith, eq_refl snapshot.repository)));
    created = λ _. (e, refl, refl, refl);
    kept = λ no_way. cc;
  }

  -- A call that returns stores the job that it returns under its issue; a new job is queued, without an
  -- attempt or a lease, where the issue had none, and otherwise the database is unchanged.
  pub ensure_job-Ensured :
      (job_id : String) (snapshot : IssueSnapshot) (routing : Routing) (now : Timestamp) (db : Db)
      → OnOk (Ensured snapshot db) (ensure_job h job_id snapshot routing now db)
  unfolding ensure_job
  ensure_job-Ensured job_id snapshot routing now db =
      elim (Option-cases (find (has_issue snapshot.repository snapshot.number) db.jobs)) [
        | inr (row, e) ↦
            rw (e, ensure_job)
              (record { stored = (unfold get_job in e); created = λ no_way. cc; kept = λ _. refl })
        | inl e ↦
            rw (e, ensure_job)
              (if_ind (OnOk (Ensured snapshot db)) (any (has_id job_id) db.jobs) _ _ (λ _. tt)
                (λ _. Ensured-new job_id snapshot routing now db _ e refl))
      ]

  -- Intake is idempotent: after a call that returned, a call for the same issue, with whatever id,
  -- routing and content, returns the same job, creates none and changes nothing.
  pub ensure_job_again :
      (job_id : String) (snapshot : IssueSnapshot) (routing : Routing) (now : Timestamp) (db : Db)
      (r : (Job × Bool) × Db)
      → ensure_job h job_id snapshot routing now db ≡ ok r
      → (job_id' : String) (snapshot' : IssueSnapshot) (routing' : Routing) (later : Timestamp)
      → snapshot'.repository ≡ snapshot.repository
      → snapshot'.number ≡ snapshot.number
      → ensure_job h job_id' snapshot' routing' later r.1 ≡ ok ((r.0.0, false), r.1)
  ensure_job_again job_id snapshot routing now db r e job_id' snapshot' routing' later same_repo
        same_number =
      let stored =
        (OnOk-elim (Ensured snapshot db) (ensure_job h job_id snapshot routing now db) r e
          (ensure_job-Ensured job_id snapshot routing now db)).stored in
      again stored
    where
      again :
          get_job snapshot.repository snapshot.number r.1 ≡ some r.0.0
          → ensure_job h job_id' snapshot' routing' later r.1 ≡ ok ((r.0.0, false), r.1)
      again stored =
          unfold ensure_job get_job in rw (same_repo, same_number, stored, ensure_job) refl
