-- ===== src/Store/Reach/Ownership.antt =====
-- Who holds the leases, as the steps of the store change it (src/symphony/store.py).
use openhands_symphony.Base.{
  ℕ, String, Bool, true, false, ◌≡◌, refl, sym, subst, ◌∙◌, Option, List, ◌||◌, ◌⊎◌, inl, inr,
  arith, string_eq, eq_iff, any, find, if_ind, if◌then◌else◌, Option-cases, Bool-cases, List-cases,
  update_where, delete_where, insert_row, any-insert_row, any-delete_where, any-update_where, leb,
}
use openhands_symphony.Models.{
  Timestamp, JobState, state_eq, IssueSnapshot, Hashing, ValidationResult,
}
use openhands_symphony.Store.Schema.{
  Lease, Detail, Db, OnOk, OnOk-elim, has_id, has_issue, has_key, holds,
}
use openhands_symphony.Store.Log.{
  log_event, record_delivery, has_delivery, record_validation, record_event, set_provider_backoff,
  acquire_operation_lock, is_lock, is_stale, release_operation_lock,
}
use openhands_symphony.Store.Jobs.{
  Routing, ensure_job, update_snapshot_if_unclaimed, accept_snapshot, begin_attempt, Assignment,
  unsupported, write_fields, update_job,
}
use openhands_symphony.Store.Transition.{
  TransitionArgs, may_move, should_release, transition, write_transition,
}
use openhands_symphony.Store.Control.{
  EventSearch, Command, is_known, drops_lease, request_control, write_control,
}
use openhands_symphony.Store.Lease.{is_held_by, is_renewable, extend, is_reapable, renew_lease}
use openhands_symphony.Store.Lease.Reap.{leases-reap_expired_leases}
use openhands_symphony.Store.Claim.{active_count, choose, new_lease, write_claim, claim_next}
use openhands_symphony.Store.Consistent.{IsConsistent}
use openhands_symphony.Store.Reach.{
  Step, ensures, refreshes, accepts, begins, updates, moves, controls, reaps, renews, claims,
  delivers, validates, logs, backs_off, locks, unlocks,
}

-- The ownership of jobs: whoever holds a job now held it before, or nobody did.
abbrev pub Handover : (before after : List Lease) → Type 0
Handover before after =
    (job_id owner : String)
    → any (is_held_by job_id owner) after ≡ true
    → (any (is_held_by job_id owner) before ≡ true) ⊎ (any (holds job_id) before ≡ false)

abbrev Hands : {A : Type 0} → Db → A × Db → Type 0
Hands db r = Handover db.leases r.1.leases

abbrev HandsTo : Db → Db → Type 0
HandsTo db db' = Handover db.leases db'.leases

same-Handover : (leases : List Lease) → Handover leases leases
same-Handover leases job_id owner h = inl h

delete_where-Handover :
    (p : Lease → Bool) (leases : List Lease) → Handover leases (delete_where p leases)
delete_where-Handover p leases job_id owner h =
    elim (Bool-cases (any (is_held_by job_id owner) leases)) [
      | inl e ↦ inl e
      | inr e ↦
          let gone = any-delete_where (is_held_by job_id owner) p leases e in
          absurd (ground (arith, gone, h))
    ]

update_where-Handover :
    (p : Lease → Bool) (now : Timestamp) (seconds : ℕ) (leases : List Lease)
    → Handover leases (update_where p (extend now seconds) leases)
unfolding extend
update_where-Handover p now seconds leases job_id owner h =
    inl (
      sym (any-update_where (is_held_by job_id owner) p (extend now seconds) leases (λ l. refl))
      ∙ h)

insert_row-Handover :
    (l : Lease) (leases : List Lease)
    → any (holds l.job_id) leases ≡ false
    → Handover leases (insert_row l leases)
insert_row-Handover l leases free job_id owner h = elim (Bool-cases (is_held_by job_id owner l)) [
  | inl new ↦ inr (
      subst (λ k. any (holds k) leases ≡ false) ((eq_iff l.job_id job_id).0 (ground (arith, new)))
        free)
  | inr old ↦ inl (ground (arith, old, h, any-insert_row (is_held_by job_id owner) l leases))
]

delete_if-Handover :
    (b : Bool) (p : Lease → Bool) (leases : List Lease)
    → Handover leases (if b then delete_where p leases else leases)
delete_if-Handover b p leases =
    if_ind (Handover leases) b _ _ (λ _. delete_where-Handover p leases) (λ _. same-Handover leases)

module _ (h : Hashing) where
  ensure_job-Hands :
      (id : String) (s : IssueSnapshot) (r : Routing) (now : Timestamp) (db : Db)
      → OnOk (Hands db) (ensure_job h id s r now db)
  unfolding ensure_job log_event
  ensure_job-Hands id s r now db =
      elim (Option-cases (find (has_issue s.repository s.number) db.jobs)) [
        | inr (row, e) ↦ rw (e, ensure_job) (same-Handover db.leases)
        | inl e ↦
            rw (e, ensure_job)
              (if_ind (OnOk (Hands db)) (any (has_id id) db.jobs) _ _ (λ _. tt)
                (λ _. same-Handover db.leases))
      ]

  accept_snapshot-Hands :
      (id : String) (s : IssueSnapshot) (now later : Timestamp) (db : Db)
      → OnOk (Hands db) (accept_snapshot h id s now later db)
  unfolding accept_snapshot log_event
  accept_snapshot-Hands id s now later db = elim (Option-cases (find (has_id id) db.jobs)) [
    | inl e ↦ rw (e, accept_snapshot) tt
    | inr (row, e) ↦
        rw (e, accept_snapshot)
          (if_ind (OnOk (Hands db)) (state_eq row.state JobState.queued) _ _
            (λ _. same-Handover db.leases) (λ _. tt))
  ]

begin_attempt-Hands :
    (id : String) (conversation_id session_id : Option String) (now : Timestamp) (db : Db)
    → OnOk (Hands db) (begin_attempt id conversation_id session_id now db)
unfolding begin_attempt log_event
begin_attempt-Hands id conversation_id session_id now db =
    elim (Option-cases (find (has_id id) db.jobs)) [
      | inl e ↦ rw (e, begin_attempt) tt
      | inr (row, e) ↦
          rw (e, begin_attempt)
            (if_ind (OnOk (Hands db)) (state_eq row.state JobState.running) _ _
              (λ _. same-Handover db.leases) (λ _. tt))
    ]

update_job-Hands :
    (id : String) (values : List Assignment) (now : Timestamp) (db : Db)
    → OnOk (Hands db) (update_job id values now db)
unfolding update_job
update_job-Hands id values now db = elim (List-cases (unsupported values)) [
  | inr (name, (names, e)) ↦ rw (e, update_job) tt
  | inl e ↦
      elim (Option-cases
        (find (has_id id) (update_where (has_id id) (write_fields values now) db.jobs))) [
          | inl f ↦ rw (e, update_job, f) tt
          | inr (row, f) ↦ rw (e, update_job, f) (same-Handover db.leases)
        ]
]

transition-Hands :
    (id : String) (s : JobState) (args : TransitionArgs) (now : Timestamp) (db : Db)
    → OnOk (Hands db) (transition id s args now db)
unfolding transition write_transition log_event
transition-Hands id s args now db = elim (Option-cases (find (has_id id) db.jobs)) [
  | inl e ↦ rw (e, transition) tt
  | inr (row, e) ↦
      rw (e, transition)
        (if_ind (OnOk (Hands db)) (may_move row.state s) _ _
          (λ _. delete_if-Handover (should_release s args) (holds id) db.leases) (λ _. tt))
]

request_control-Hands :
    (search_in : EventSearch) (repository : String) (n : ℕ) (command : Command) (now : Timestamp)
    (db : Db)
    → OnOk (Hands db) (request_control search_in repository n command now db)
unfolding request_control write_control log_event
request_control-Hands search_in repository n command now db =
    elim (Option-cases (find (has_issue repository n) db.jobs)) [
      | inl e ↦ rw (e, request_control) (same-Handover db.leases)
      | inr (row, e) ↦
          rw (e, request_control)
            (if_ind (OnOk (Hands db)) (is_known command) _ _
              (λ _. delete_if-Handover (drops_lease command row.state) (holds row.id) db.leases)
              (λ _. tt))
    ]

renew_lease-Hands :
    (id owner : String) (seconds : ℕ) (now : Timestamp) (db : Db)
    → Hands db (renew_lease id owner seconds now db)
unfolding renew_lease
renew_lease-Hands id owner seconds now db =
    if_ind (Hands db) (any (is_renewable id owner now) db.leases) _ _
      (λ _. update_where-Handover (is_renewable id owner now) now seconds db.leases)
      (λ _. same-Handover db.leases)

claim_next-Hands :
    (owner : String) (seconds global_limit : ℕ) (limits : List (String × ℕ)) (now : Timestamp)
    (db : Db)
    → OnOk (Hands db) (claim_next owner seconds global_limit limits now db)
unfolding claim_next write_claim log_event new_lease
claim_next-Hands owner seconds global_limit limits now db =
    if_ind (OnOk (Hands db)) (leb global_limit (active_count now db)) _ _
      (λ _. same-Handover db.leases)
      (λ _. elim (Option-cases (choose now limits db)) [
        | inl e ↦ rw e (same-Handover db.leases)
        | inr (j, e) ↦ rw e (
            if_ind (OnOk (Hands db))
              (any (holds j.id) db.leases || any (has_key j.concurrency_key) db.leases) _ _
              (λ _. tt)
              (λ free.
                insert_row-Handover (new_lease j owner seconds now) db.leases
                  (ground (arith, free))))
      ])

record_validation-HandsTo :
    (id : String) (attempt : ℕ) (result : ValidationResult) (db : Db)
    → OnOk (HandsTo db) (record_validation id attempt result db)
unfolding record_validation
record_validation-HandsTo id attempt result db =
    if_ind (OnOk (HandsTo db)) (any (has_id id) db.jobs) _ _ (λ _. same-Handover db.leases)
      (λ _. tt)

record_event-HandsTo :
    (id kind : String) (detail : Detail) (now : Timestamp) (db : Db)
    → OnOk (HandsTo db) (record_event id kind detail now db)
unfolding record_event log_event
record_event-HandsTo id kind detail now db =
    if_ind (OnOk (HandsTo db)) (any (has_id id) db.jobs) _ _ (λ _. same-Handover db.leases)
      (λ _. tt)

module _ (h : Hashing) (search_in : EventSearch) where
  -- On a consistent database every call of the store that commits leaves the ownership of each job
  -- with the worker that has it, or with nobody, or gives it to a worker when nobody has it: two
  -- workers never hold a job in turn without a release or a recovery between them.
  pub Step-Handover :
      (db db' : Db) → Step h search_in db db' → IsConsistent db → Handover db.leases db'.leases
  unfolding update_snapshot_if_unclaimed record_delivery set_provider_backoff acquire_operation_lock
      release_operation_lock
  Step-Handover db db' (ensures id s r now out e) c =
      OnOk-elim (Hands db) (ensure_job h id s r now db) (out, db') e
        (ensure_job-Hands h id s r now db)
  Step-Handover db db' (refreshes s r now e) c =
      subst (HandsTo db) (sym e) (same-Handover db.leases)
  Step-Handover db db' (accepts id s now later out e) c =
      OnOk-elim (Hands db) (accept_snapshot h id s now later db) (out, db') e
        (accept_snapshot-Hands h id s now later db)
  Step-Handover db db' (begins id conversation_id session_id now out e) c =
      OnOk-elim (Hands db) (begin_attempt id conversation_id session_id now db) (out, db') e
        (begin_attempt-Hands id conversation_id session_id now db)
  Step-Handover db db' (updates id values now out e) c =
      OnOk-elim (Hands db) (update_job id values now db) (out, db') e
        (update_job-Hands id values now db)
  Step-Handover db db' (moves id s args now out e) c =
      OnOk-elim (Hands db) (transition id s args now db) (out, db') e
        (transition-Hands id s args now db)
  Step-Handover db db' (controls repository n command now out e) c =
      OnOk-elim (Hands db) (request_control search_in repository n command now db) (out, db') e
        (request_control-Hands search_in repository n command now db)
  Step-Handover db db' (reaps now ids e) c = subst (HandsTo db) (sym e) (
      subst (Handover db.leases) (sym (leases-reap_expired_leases now ids db c))
        (delete_where-Handover (is_reapable now ids) db.leases))
  Step-Handover db db' (renews id owner seconds now e) c =
      subst (HandsTo db) (sym e) (renew_lease-Hands id owner seconds now db)
  Step-Handover db db' (claims owner seconds global_limit limits now out e) c =
      OnOk-elim (Hands db) (claim_next owner seconds global_limit limits now db) (out, db') e
        (claim_next-Hands owner seconds global_limit limits now db)
  Step-Handover db db' (delivers id name hash repository n now e) c = subst (HandsTo db) (sym e) (
      if_ind (Hands db) (any (has_delivery id) db.deliveries) _ _ (λ _. same-Handover db.leases)
        (λ _. same-Handover db.leases))
  Step-Handover db db' (validates id attempt result e) c =
      OnOk-elim (HandsTo db) (record_validation id attempt result db) db' e
        (record_validation-HandsTo id attempt result db)
  Step-Handover db db' (logs id kind detail now e) c =
      OnOk-elim (HandsTo db) (record_event id kind detail now db) db' e
        (record_event-HandsTo id kind detail now db)
  Step-Handover db db' (backs_off provider reason seconds now e) c =
      subst (HandsTo db) (sym e) (same-Handover db.leases)
  Step-Handover db db' (locks name owner seconds now e) c = subst (HandsTo db) (sym e) (
      if_ind (Hands db) (any (is_lock name) (delete_where (is_stale now) db.operation_locks)) _ _
        (λ _. same-Handover db.leases) (λ _. same-Handover db.leases))
  Step-Handover db db' (unlocks name owner e) c =
      subst (HandsTo db) (sym e) (same-Handover db.leases)
