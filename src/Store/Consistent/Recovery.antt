-- ===== src/Store/Consistent/Recovery.antt =====
-- `reap_expired_leases` of src/symphony/store.py against the invariant.
use openhands_symphony.Base.{
  String, Bool, ◌≡◌, refl, Option, none, some, List, [], ◌∷◌, string_eq, find, Option-cases, inl,
  inr, if_ind, All, All-imp, All_of_find,
}
use openhands_symphony.Models.{Timestamp, Job}
use openhands_symphony.Store.Schema.{Lease, Db, has_id}
use openhands_symphony.Store.Lease.{join_jobs, recover, reap_one, reap_rows, reap_expired_leases}
use openhands_symphony.Store.Consistent.{Refers, IsConsistent}
use openhands_symphony.Store.Consistent.Edit.{
  KeepsKeys, Refers-update, release-IsConsistent, log_event-IsConsistent, Refers-self,
}

-- The keys stay, and the lease columns are cleared.
abbrev RecoverShape : Job → Job → Type 0
RecoverShape j j' =
    (j'.id ≡ j.id)
    × (j'.repository ≡ j.repository)
    × (j'.issue_number ≡ j.issue_number)
    × (j'.lease_owner ≡ none)
    × (j'.lease_expires_at ≡ none)

recover_shape : (now : Timestamp) (row j : Job) → RecoverShape j (recover now row j)
unfolding recover
recover_shape now row j =
    if_ind (RecoverShape j) row.cancel_requested _ _ (λ _. (refl, refl, refl, refl, refl))
      (λ _.
        if_ind (RecoverShape j) row.pause_requested _ _ (λ _. (refl, refl, refl, refl, refl))
          (λ _. (refl, refl, refl, refl, refl)))

recover-KeepsKeys : (now : Timestamp) (row : Job) → KeepsKeys (recover now row)
recover-KeepsKeys now row = record {
  id = λ j. (recover_shape now row j).0;
  repository = λ j. (recover_shape now row j).1;
  issue_number = λ j. (recover_shape now row j).2;
}

reap_one-IsConsistent :
    (now : Timestamp) (row : Job) (db : Db)
    → Refers db.jobs row.id
    → IsConsistent db
    → IsConsistent (reap_one now row db)
unfolding reap_one
reap_one-IsConsistent now row db there c =
    log_event-IsConsistent row.id now _ _ _
      (Refers-update (recover-KeepsKeys now row) (has_id row.id) db.jobs row.id there)
      (release-IsConsistent (recover-KeepsKeys now row) row.id db (λ j. (recover_shape now row j).3)
        (λ j. (recover_shape now row j).4) c)

Refers-reap_one :
    (now : Timestamp) (row : Job) (db : Db) (k : String)
    → Refers db.jobs k
    → Refers (reap_one now row db).jobs k
unfolding reap_one
Refers-reap_one now row db = Refers-update (recover-KeepsKeys now row) (has_id row.id) db.jobs

reap_rows-IsConsistent :
    (now : Timestamp) (rows : List Job) (db : Db)
    → All (λ r. Refers db.jobs r.id) rows
    → IsConsistent db
    → IsConsistent (reap_rows now rows db).1
unfolding reap_rows
reap_rows-IsConsistent now [] db there c = c
reap_rows-IsConsistent now (row ∷ rows) db there c =
    reap_rows-IsConsistent now rows (reap_one now row db)
      (All-imp _ _ rows (λ r. Refers-reap_one now row db r.id) there.1)
      (reap_one-IsConsistent now row db there.0 c)

pub join_jobs-Refers :
    (p : Lease → Bool) (leases : List Lease) (jobs : List Job)
    → All (λ j. Refers jobs j.id) (join_jobs p leases jobs)
unfolding join_jobs
join_jobs-Refers p [] jobs = tt
join_jobs-Refers p (l ∷ ls) jobs =
    let rest = join_jobs-Refers p ls jobs in
    if_ind (All (λ j. Refers jobs j.id)) (p l) _ _
      (λ _. elim (Option-cases (find (has_id l.job_id) jobs)) [
        | inl e ↦ rw e rest
        | inr (j, e) ↦
            rw e (All_of_find (λ x. Refers jobs x.id) _ jobs j e (Refers-self jobs), rest)
      ])
      (λ _. rest)

pub reap_expired_leases-IsConsistent :
    (now : Timestamp) (ids : Option (List String)) (db : Db)
    → IsConsistent db
    → IsConsistent (reap_expired_leases now ids db).1
unfolding reap_expired_leases
reap_expired_leases-IsConsistent now none db c =
    reap_rows-IsConsistent now _ db (join_jobs-Refers _ db.leases db.jobs) c
reap_expired_leases-IsConsistent now (some []) db c = c
reap_expired_leases-IsConsistent now (some (k ∷ ids)) db c =
    reap_rows-IsConsistent now _ db (join_jobs-Refers _ db.leases db.jobs) c
