-- ===== src/Store/Consistent/Claims.antt =====
-- `renew_lease` and `claim_next` of src/symphony/store.py against the invariant.
use openhands_symphony.Base.{
  eq_symm, ℕ, String, Bool, true, false, ◌≡◌, refl, sym, ◌∙◌, some, List, [], ◌∷◌, ◌||◌, string_eq,
  arith, eq_iff, any, find, Bool-cases, Option-cases, inl, inr, if_ind, All, leb, All-update_where,
  All-insert_row, All-select, All-order_by, All_of_find, IsUnique, IsUnique-insert_row,
  IsUnique-update_where, any-imp, find_holds, find-insert_row_new, find-insert_row_absent,
  find-update_where_hit, find-update_where_other, insert_row, update_where,
}
use openhands_symphony.Models.{Timestamp, Job}
use openhands_symphony.Store.Schema.{Lease, Db, OnOk, has_id, holds, has_key}
use openhands_symphony.Store.Lease.{is_renewable, extend, touch, renew_lease}
use openhands_symphony.Store.Claim.{
  candidates, is_candidate, queue_before, has_slot, start_run, new_lease, write_claim, choose,
  claim_next, active_count,
}
use openhands_symphony.Store.Consistent.{same_key, same_holder, Mirrors, Refers, IsConsistent, Then}
use openhands_symphony.Store.Consistent.Edit.{
  KeepsKeys, Refers-update, edit-IsConsistent, log_event-IsConsistent, Refers-self,
}

-- The renewable lease of a job is the lease of the job: there is no other.
renewable_is_first :
    (k owner : String) (now : Timestamp) (leases : List Lease)
    → IsUnique same_holder leases
    → any (is_renewable k owner now) leases ≡ true
    → (l : Lease) × (find (holds k) leases ≡ some l) × (is_renewable k owner now l ≡ true)
unfolding find any
renewable_is_first k owner now [] unique h = absurd (ground arith)
renewable_is_first k owner now (l ∷ leases) unique h = elim (Bool-cases (holds k l)) [
  | inr other ↦
      let (found, e, good) = renewable_is_first k owner now leases unique.1 (ground arith) in
      (found, rw other e, good)
  | inl mine ↦ elim (Bool-cases (is_renewable k owner now l)) [
    | inl good ↦ (l, rw mine refl, good)
    | inr bad ↦
        let later : any (is_renewable k owner now) leases ≡ true = ground arith in
        let twin : any (same_holder l) leases ≡ true =
          any-imp (is_renewable k owner now) (same_holder l) leases
            (λ x r. rw ((eq_iff l.job_id k).0 mine) (ground arith)) later in
        cc (unique.0, twin)
  ]
]

abbrev renewed : String → String → ℕ → Timestamp → List Lease → List Lease
renewed job_id owner seconds now = update_where (is_renewable job_id owner now) (extend now seconds)

module _ (job_id owner : String) (seconds : ℕ) (now : Timestamp) (db : Db)
    (c : IsConsistent db) where
  touch-Mirrors :
      (j : Job)
      → any (is_renewable job_id owner now) db.leases ≡ true
      → has_id job_id j ≡ true
      → Mirrors db.leases j
      → Mirrors (renewed job_id owner seconds now db.leases) (touch now seconds j)
  unfolding touch
  touch-Mirrors j h mine m =
      let (l, found, good) = renewable_is_first job_id owner now db.leases c.lease_holders h in
      let same : j.id ≡ job_id = (eq_iff j.id job_id).0 mine in
      let found' : find (holds j.id) db.leases ≡ some l = rw same found in
      let hit : find (holds j.id) (renewed job_id owner seconds now db.leases)
          ≡ some (extend now seconds l) =
        find-update_where_hit (holds j.id) (is_renewable job_id owner now) (extend now seconds)
          db.leases (unfold extend in λ x. refl) l found' good in
      (rw hit (m.0 ∙ (unfold extend in rw found')), rw hit (unfold extend in refl))

  others-Mirrors :
      (j : Job)
      → has_id job_id j ≡ false
      → Mirrors db.leases j
      → Mirrors (renewed job_id owner seconds now db.leases) j
  others-Mirrors j other m =
      let kept : find (holds j.id) (renewed job_id owner seconds now db.leases)
          ≡ find (holds j.id) db.leases =
        find-update_where_other (holds j.id) (is_renewable job_id owner now) (extend now seconds)
          db.leases (unfold extend in λ x _. refl)
          (λ x h.
            ground (arith, eq_iff x.job_id j.id, eq_iff x.job_id job_id, eq_iff j.id job_id)) in
      (rw kept m.0, rw kept m.1)

  pub renew_lease-IsConsistent : IsConsistent (renew_lease job_id owner seconds now db).1
  unfolding renew_lease
  renew_lease-IsConsistent =
      if_ind (λ (r : Bool × Db). IsConsistent r.1) (any (is_renewable job_id owner now) db.leases) _
        _
        (λ h.
          edit-IsConsistent
            (record { id = λ j. refl; repository = λ j. refl; issue_number = λ j. refl })
            (has_id job_id) db (renewed job_id owner seconds now db.leases) c
            (IsUnique-update_where same_key (is_renewable job_id owner now) (extend now seconds)
              db.leases (λ x y. refl) (λ x y. refl) c.lease_keys)
            (IsUnique-update_where same_holder (is_renewable job_id owner now) (extend now seconds)
              db.leases (λ x y. refl) (λ x y. refl) c.lease_holders)
            (All-update_where _ _ (is_renewable job_id owner now) (extend now seconds) db.leases
              (λ l _ r. r) (λ l _ r. r) c.lease_refs)
            (λ j e. touch-Mirrors j h e) others-Mirrors)
        (λ _. c)

-- Every candidate is a job of the table, and passed the test of the query.
pub candidates_shape :
    (now : Timestamp) (db : Db)
    → All (λ j. Refers db.jobs j.id × (is_candidate now db j ≡ true)) (candidates now db)
unfolding candidates
candidates_shape now db =
    All-order_by (queue_before db) _ _
      (All-select (λ j. Refers db.jobs j.id) (is_candidate now db) db.jobs (Refers-self db.jobs))

-- The chosen job is a candidate of the query whose provider has a slot.
pub choose_shape :
    (now : Timestamp) (limits : List (String × ℕ)) (db : Db) (j : Job)
    → choose now limits db ≡ some j
    → Refers db.jobs j.id × (is_candidate now db j ≡ true) × (has_slot now limits db j ≡ true)
unfolding choose
choose_shape now limits db j e =
    let (there, good) =
      All_of_find _ (has_slot now limits db) (candidates now db) j e (candidates_shape now db) in
    (there, good, find_holds (has_slot now limits db) (candidates now db) j e)

module _ (j : Job) (owner : String) (seconds : ℕ) (now : Timestamp) (db : Db) (c : IsConsistent db)
    (there : Refers db.jobs j.id) (no_holder : any (holds j.id) db.leases ≡ false)
    (no_key : any (has_key j.concurrency_key) db.leases ≡ false) where
  pub write_claim-IsConsistent : IsConsistent (write_claim j owner seconds now db)
  unfolding write_claim
  write_claim-IsConsistent =
      log_event-IsConsistent j.id now _ _ _ (Refers-update keeps (has_id j.id) db.jobs j.id there) (
        edit-IsConsistent keeps (has_id j.id) db (insert_row lease db.leases) c
          (IsUnique-insert_row same_key lease db.leases
            (λ l. eq_symm j.concurrency_key l.concurrency_key) c.lease_keys no_key)
          (IsUnique-insert_row same_holder lease db.leases (λ l. eq_symm j.id l.job_id)
            c.lease_holders no_holder)
          (All-insert_row _ lease db.leases c.lease_refs there)
          (λ x e m.
            let same : x.id ≡ j.id = (eq_iff x.id j.id).0 e in
            let found : find (holds x.id) (insert_row lease db.leases) ≡ some lease =
              find-insert_row_new (holds x.id) lease db.leases (rw same no_holder)
                ((eq_iff j.id x.id).1 (sym same)) in
            (rw found refl, rw found refl))
          (λ x e m.
            let kept : find (holds x.id) (insert_row lease db.leases)
                ≡ find (holds x.id) db.leases =
              find-insert_row_absent (holds x.id) lease db.leases (eq_symm j.id x.id ∙ e) in
            (rw kept m.0, rw kept m.1)))
    where
      lease : Lease
      lease = new_lease j owner seconds now

      keeps : KeepsKeys (start_run owner seconds now)
      keeps = record { id = λ x. refl; repository = λ x. refl; issue_number = λ x. refl }

pub claim_next-IsConsistent :
    (owner : String) (seconds global_limit : ℕ) (limits : List (String × ℕ)) (now : Timestamp)
    (db : Db)
    → IsConsistent db
    → OnOk Then (claim_next owner seconds global_limit limits now db)
unfolding claim_next
claim_next-IsConsistent owner seconds global_limit limits now db c =
    if_ind (OnOk Then) (leb global_limit (active_count now db)) _ _ (λ _. c)
      (λ _. elim (Option-cases (choose now limits db)) [
        | inl e ↦ rw e c
        | inr (j, e) ↦ rw e (
            if_ind (OnOk Then)
              (any (holds j.id) db.leases || any (has_key j.concurrency_key) db.leases) _ _
              (λ _. tt)
              (λ free.
                write_claim-IsConsistent j owner seconds now db c (choose_shape now limits db j e).0
                  (ground arith) (ground arith)))
      ])
