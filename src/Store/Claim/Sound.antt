-- ===== src/Store/Claim/Sound.antt =====
-- The results of `claim_next` of src/symphony/store.py.
use openhands_symphony.Base.{
  ℕ, String, In, All-In, In-update_where, All_of_find, All-order_by, All-select, All-imp, order_by,
  select, ◌==◌, true, false, ◌≡◌, refl, Option, none, some, List, ◌||◌, string_eq, ◌⊎◌, arith,
  eq_refl, any, find, All, leb, find-insert_row_new, if_ind, Option-cases, inl, inr, ◌≤◌, leb→le,
  Bool-cases, Bool-cases,
}
use openhands_symphony.Models.{Timestamp, JobState, state_eq, Job}
use openhands_symphony.Store.Schema.{Db, has_id, ok, OnOk, holds, has_key}
use openhands_symphony.Store.Claim.{
  is_backed_off, active_count, is_candidate, has_slot, queue_before, choose, start_run, new_lease,
  candidates, write_claim, claim_next,
}
use openhands_symphony.Store.Log.{log_event}
use openhands_symphony.Store.Transition.Legal.{find_other}
use openhands_symphony.Store.Claim.Order.{choose_first, choose-none}
use openhands_symphony.Store.Consistent.Claims.{choose_shape}

-- A job that may be claimed: queued, with no flag and no backoff against it, and its key free.
pub record IsFree (now : Timestamp) (db : Db) (j : Job) : Type 0 where
  pub queued : j.state ≡ JobState.queued
  pub not_canceled : j.cancel_requested ≡ false
  pub not_paused : j.pause_requested ≡ false
  pub not_backed_off : any (is_backed_off now j.implementation_provider) db.provider_backoff ≡ false
  pub unleased : any (has_key j.concurrency_key) db.leases ≡ false

queued_of : (s : JobState) → state_eq s JobState.queued ≡ true → s ≡ JobState.queued
unfolding state_eq
queued_of JobState.queued h = refl
queued_of s h = cc

IsFree-of_candidate :
    (now : Timestamp) (db : Db) (j : Job) → is_candidate now db j ≡ true → IsFree now db j
unfolding is_candidate
IsFree-of_candidate now db j h = record {
  queued = queued_of j.state (ground arith);
  not_canceled = ground arith;
  not_paused = ground arith;
  not_backed_off = ground arith;
  unleased = ground arith;
}

-- What a claim of the job `from` did.
pub record Claimed (owner : String) (seconds : ℕ) (limits : List (String × ℕ)) (now : Timestamp)
    (db : Db) (to : Job) (db' : Db) : Type 0 where
  pub from : Job
  pub was : In from db.jobs
  pub stored : In to db'.jobs
  pub others :
      (k : String) → (k == from.id) ≡ false → find (has_id k) db'.jobs ≡ find (has_id k) db.jobs
  pub free : IsFree now db from
  pub same : to.id ≡ from.id
  pub running : to.state ≡ JobState.running
  pub holder : to.lease_owner ≡ some owner
  pub lease :
      find (has_key from.concurrency_key) db'.leases ≡ some (new_lease from owner seconds now)
  pub first :
      All
        (λ y.
          is_candidate now db y ≡ true
          → has_slot now limits db y ≡ true
          → queue_before db y from ≡ false)
        db.jobs

-- The two ways to return no job: every slot is taken, or no free job has a provider with a slot. The
-- database is unchanged.
abbrev pub Idle : ℕ → List (String × ℕ) → Timestamp → Db → Db → Type 0
Idle global_limit limits now db db' =
    (db' ≡ db)
    × ((global_limit ≤ active_count now db)
        ⊎ All (λ y. is_candidate now db y ≡ true → has_slot now limits db y ≡ false) db.jobs)

abbrev pub ClaimResult :
    String → ℕ → ℕ → List (String × ℕ) → Timestamp → Db → Option Job × Db → Type 0
ClaimResult owner seconds global_limit limits now db (none, db') =
    Idle global_limit limits now db db'
ClaimResult owner seconds global_limit limits now db (some to, db') =
    Claimed owner seconds limits now db to db'

module _ (owner : String) (seconds global_limit : ℕ) (limits : List (String × ℕ)) (now : Timestamp)
    (db : Db) where
  chosen_row : (j : Job) → choose now limits db ≡ some j → In j db.jobs
  unfolding choose candidates
  chosen_row j e =
      All_of_find (λ y. In y db.jobs) (has_slot now limits db)
        (order_by (queue_before db) (select (is_candidate now db) db.jobs)) j e
        (All-order_by (queue_before db) (λ y. In y db.jobs) (select (is_candidate now db) db.jobs)
          (All-imp (λ y. In y db.jobs × (is_candidate now db y ≡ true)) (λ y. In y db.jobs)
            (select (is_candidate now db) db.jobs) (λ y h. h.0)
            (All-select (λ y. In y db.jobs) (is_candidate now db) db.jobs (All-In db.jobs))))

  claimed :
      (j : Job)
      → choose now limits db ≡ some j
      → any (has_key j.concurrency_key) db.leases ≡ false
      → Claimed owner seconds limits now db
          (start_run owner seconds now j)
          (write_claim j owner seconds now db)
  unfolding write_claim start_run
  claimed j e free = record {
    from = j;
    was = chosen_row j e;
    stored =
        In-update_where (has_id j.id) (start_run owner seconds now) j db.jobs (eq_refl j.id)
          (chosen_row j e);
    others = λ k ne.
        unfold log_event in find_other j.id k (start_run owner seconds now) db.jobs (λ y. refl) ne;
    holder = refl;
    free = IsFree-of_candidate now db j (choose_shape now limits db j e).1;
    same = refl;
    running = refl;
    lease =
        find-insert_row_new (has_key j.concurrency_key) (new_lease j owner seconds now) db.leases
          free (eq_refl j.concurrency_key);
    first = choose_first now limits db j e;
  }

  -- A claim that returns a job took a queued row of the jobs table with no flag, no backoff and no
  -- lease on its concurrency key, no candidate with a free slot before it in the queue. It stored the
  -- returned row, which is running and names the owner, under the same id, left the row of every
  -- other id as it was, and leased the concurrency key to the owner. A claim that returns none left
  -- the database alone, and either the global limit is reached or no candidate has a provider with a
  -- free slot.
  pub claim_next-ClaimResult :
      OnOk
        (ClaimResult owner seconds global_limit limits now db)
        (claim_next owner seconds global_limit limits now db)
  unfolding claim_next
  claim_next-ClaimResult =
      if_ind (OnOk (ClaimResult owner seconds global_limit limits now db))
        (leb global_limit (active_count now db)) _ _ (λ full. (refl, inl (leb→le _ _ full)))
        (λ _. elim (Option-cases (choose now limits db)) [
          | inl e ↦ rw e (refl, inr (choose-none now limits db e))
          | inr (j, e) ↦ rw e (
              if_ind (OnOk (ClaimResult owner seconds global_limit limits now db))
                (any (holds j.id) db.leases || any (has_key j.concurrency_key) db.leases) _ _
                (λ _. tt) (λ free. claimed j e (ground arith)))
        ])

  -- A claim returns whenever the job that stands first holds no lease of its own: the check of the
  -- concurrency key in the query keeps the insertion from failing on that key.
  pub claim_next_returns :
      (j : Job)
      → choose now limits db ≡ some j
      → any (holds j.id) db.leases ≡ false
      → (r : Option Job × Db) × (claim_next owner seconds global_limit limits now db ≡ ok r)
  unfolding claim_next
  claim_next_returns j e free = elim (Bool-cases (leb global_limit (active_count now db))) [
    | inl full ↦ ((none, db), rw full refl)
    | inr room ↦
        let key = (IsFree-of_candidate now db j (choose_shape now limits db j e).1).unleased in
        (
          (some (start_run owner seconds now j), write_claim j owner seconds now db),
          rw (room, e, free, key) refl,
        )
  ]
