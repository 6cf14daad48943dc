-- ===== src/Store/Reach/Deliveries.antt =====
-- The methods of src/symphony/store.py that leave the table of deliveries alone.
use openhands_symphony.Base.{
  ℕ, String, ◌≡◌, refl, Option, none, some, List, [], ◌∷◌, ◌||◌, inl, inr, string_eq, any, find,
  if_ind, Option-cases, List-cases, update_where, leb,
}
use openhands_symphony.Models.{
  Timestamp, JobState, state_eq, IssueSnapshot, Hashing, ValidationResult, Job,
}
use openhands_symphony.Store.Schema.{Detail, Db, OnOk, has_id, has_issue, has_key, holds}
use openhands_symphony.Store.Log.{log_event, record_validation, record_event}
use openhands_symphony.Store.Jobs.{
  Routing, ensure_job, accept_snapshot, begin_attempt, Assignment, unsupported, write_fields,
  update_job,
}
use openhands_symphony.Store.Transition.{TransitionArgs, may_move, transition, write_transition}
use openhands_symphony.Store.Control.{
  EventSearch, Command, is_known, request_control, write_control,
}
use openhands_symphony.Store.Lease.{
  is_renewable, is_reapable, join_jobs, reap_one, reap_rows, reap_expired_leases, renew_lease,
}
use openhands_symphony.Store.Claim.{active_count, choose, new_lease, write_claim, claim_next}

abbrev pub KeepsDeliveries : {A : Type 0} → Db → A × Db → Type 0
KeepsDeliveries db r = r.1.deliveries ≡ db.deliveries

abbrev pub KeepsDeliveriesOn : Db → Db → Type 0
KeepsDeliveriesOn db db' = db'.deliveries ≡ db.deliveries

module _ (h : Hashing) where
  pub ensure_job-KeepsDeliveries :
      (id : String) (s : IssueSnapshot) (r : Routing) (now : Timestamp) (db : Db)
      → OnOk (KeepsDeliveries db) (ensure_job h id s r now db)
  unfolding ensure_job log_event
  ensure_job-KeepsDeliveries id s r now db =
      elim (Option-cases (find (has_issue s.repository s.number) db.jobs)) [
        | inr (row, e) ↦ rw (e, ensure_job) refl
        | inl e ↦
            rw (e, ensure_job)
              (if_ind (OnOk (KeepsDeliveries db)) (any (has_id id) db.jobs) _ _ (λ _. tt)
                (λ _. refl))
      ]

  pub accept_snapshot-KeepsDeliveries :
      (id : String) (s : IssueSnapshot) (now later : Timestamp) (db : Db)
      → OnOk (KeepsDeliveries db) (accept_snapshot h id s now later db)
  unfolding accept_snapshot log_event
  accept_snapshot-KeepsDeliveries id s now later db =
      elim (Option-cases (find (has_id id) db.jobs)) [
        | inl e ↦ rw (e, accept_snapshot) tt
        | inr (row, e) ↦
            rw (e, accept_snapshot)
              (if_ind (OnOk (KeepsDeliveries db)) (state_eq row.state JobState.queued) _ _
                (λ _. refl) (λ _. tt))
      ]

pub begin_attempt-KeepsDeliveries :
    (id : String) (conversation_id session_id : Option String) (now : Timestamp) (db : Db)
    → OnOk (KeepsDeliveries db) (begin_attempt id conversation_id session_id now db)
unfolding begin_attempt log_event
begin_attempt-KeepsDeliveries id conversation_id session_id now db =
    elim (Option-cases (find (has_id id) db.jobs)) [
      | inl e ↦ rw (e, begin_attempt) tt
      | inr (row, e) ↦
          rw (e, begin_attempt)
            (if_ind (OnOk (KeepsDeliveries db)) (state_eq row.state JobState.running) _ _
              (λ _. refl) (λ _. tt))
    ]

pub update_job-KeepsDeliveries :
    (id : String) (values : List Assignment) (now : Timestamp) (db : Db)
    → OnOk (KeepsDeliveries db) (update_job id values now db)
unfolding update_job
update_job-KeepsDeliveries id values now db = elim (List-cases (unsupported values)) [
  | inr (name, (names, e)) ↦ rw (e, update_job) tt
  | inl e ↦
      elim (Option-cases
        (find (has_id id) (update_where (has_id id) (write_fields values now) db.jobs))) [
          | inl f ↦ rw (e, update_job, f) tt
          | inr (row, f) ↦ rw (e, update_job, f) refl
        ]
]

pub transition-KeepsDeliveries :
    (id : String) (s : JobState) (args : TransitionArgs) (now : Timestamp) (db : Db)
    → OnOk (KeepsDeliveries db) (transition id s args now db)
unfolding transition write_transition log_event
transition-KeepsDeliveries id s args now db = elim (Option-cases (find (has_id id) db.jobs)) [
  | inl e ↦ rw (e, transition) tt
  | inr (row, e) ↦
      rw (e, transition)
        (if_ind (OnOk (KeepsDeliveries db)) (may_move row.state s) _ _ (λ _. refl) (λ _. tt))
]

pub request_control-KeepsDeliveries :
    (search_in : EventSearch) (repository : String) (n : ℕ) (command : Command) (now : Timestamp)
    (db : Db)
    → OnOk (KeepsDeliveries db) (request_control search_in repository n command now db)
unfolding request_control write_control log_event
request_control-KeepsDeliveries search_in repository n command now db =
    elim (Option-cases (find (has_issue repository n) db.jobs)) [
      | inl e ↦ rw (e, request_control) refl
      | inr (row, e) ↦
          rw (e, request_control)
            (if_ind (OnOk (KeepsDeliveries db)) (is_known command) _ _ (λ _. refl) (λ _. tt))
    ]

pub renew_lease-KeepsDeliveries :
    (id owner : String) (seconds : ℕ) (now : Timestamp) (db : Db)
    → KeepsDeliveries db (renew_lease id owner seconds now db)
unfolding renew_lease
renew_lease-KeepsDeliveries id owner seconds now db =
    if_ind (KeepsDeliveries db) (any (is_renewable id owner now) db.leases) _ _ (λ _. refl)
      (λ _. refl)

pub claim_next-KeepsDeliveries :
    (owner : String) (seconds global_limit : ℕ) (limits : List (String × ℕ)) (now : Timestamp)
    (db : Db)
    → OnOk (KeepsDeliveries db) (claim_next owner seconds global_limit limits now db)
unfolding claim_next write_claim log_event new_lease
claim_next-KeepsDeliveries owner seconds global_limit limits now db =
    if_ind (OnOk (KeepsDeliveries db)) (leb global_limit (active_count now db)) _ _ (λ _. refl)
      (λ _. elim (Option-cases (choose now limits db)) [
        | inl e ↦ rw e refl
        | inr (j, e) ↦ rw e (
            if_ind (OnOk (KeepsDeliveries db))
              (any (holds j.id) db.leases || any (has_key j.concurrency_key) db.leases) _ _
              (λ _. tt) (λ free. refl))
      ])

pub record_validation-KeepsDeliveriesOn :
    (id : String) (attempt : ℕ) (result : ValidationResult) (db : Db)
    → OnOk (KeepsDeliveriesOn db) (record_validation id attempt result db)
unfolding record_validation
record_validation-KeepsDeliveriesOn id attempt result db =
    if_ind (OnOk (KeepsDeliveriesOn db)) (any (has_id id) db.jobs) _ _ (λ _. refl) (λ _. tt)

pub record_event-KeepsDeliveriesOn :
    (id kind : String) (detail : Detail) (now : Timestamp) (db : Db)
    → OnOk (KeepsDeliveriesOn db) (record_event id kind detail now db)
unfolding record_event log_event
record_event-KeepsDeliveriesOn id kind detail now db =
    if_ind (OnOk (KeepsDeliveriesOn db)) (any (has_id id) db.jobs) _ _ (λ _. refl) (λ _. tt)

reap_rows-KeepsDeliveries :
    (now : Timestamp) (rows : List Job) (db : Db) → KeepsDeliveries db (reap_rows now rows db)
unfolding reap_rows reap_one log_event
reap_rows-KeepsDeliveries now [] db = refl
reap_rows-KeepsDeliveries now (row ∷ rows) db =
    reap_rows-KeepsDeliveries now rows (reap_one now row db)

pub reap_expired_leases-KeepsDeliveries :
    (now : Timestamp) (ids : Option (List String)) (db : Db)
    → KeepsDeliveries db (reap_expired_leases now ids db)
unfolding reap_expired_leases
reap_expired_leases-KeepsDeliveries now none db =
    reap_rows-KeepsDeliveries now (join_jobs (is_reapable now none) db.leases db.jobs) db
reap_expired_leases-KeepsDeliveries now (some []) db = refl
reap_expired_leases-KeepsDeliveries now (some (k ∷ ids)) db =
    reap_rows-KeepsDeliveries now (join_jobs (is_reapable now (some (k ∷ ids))) db.leases db.jobs)
      db
