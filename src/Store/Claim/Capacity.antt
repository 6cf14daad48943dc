-- ===== src/Store/Claim/Capacity.antt =====
-- The limits of `claim_next` of src/symphony/store.py.
use openhands_symphony.Base.{
  ℕ, suc, ◌≤◌, ◌<◌, ltb→lt, any-update_where, String, Bool, true, ◌≡◌, refl, Option, none, some,
  List, [], ◌∷◌, ◌==◌, string_eq, ◌&&◌, ◌||◌, arith, leb, any, count_where, insert_row,
  update_where, if_ind, Option-cases, inl, inr,
}
use openhands_symphony.Models.{Timestamp, Job}
use openhands_symphony.Store.Schema.{Db, OnOk, has_id, holds, has_key}
use openhands_symphony.Store.Claim.{
  is_live, is_live_for, active_count, provider_count, limit_of, has_slot, choose, start_run,
  new_lease, write_claim, claim_next,
}
use openhands_symphony.Store.Consistent.Claims.{choose_shape}

count_where-insert_row {ℓ} :
    {A : Type ℓ} (p : A → Bool) (x : A) (xs : List A)
    → count_where p (insert_row x xs) ≤ suc (count_where p xs)
unfolding count_where
count_where-insert_row p x [] = ground arith
count_where-insert_row p x (y ∷ xs) = ground (arith, count_where-insert_row p x xs)

count_where_congr {ℓ} :
    {A : Type ℓ} (p q : A → Bool) (xs : List A)
    → ((x : A) → p x ≡ q x)
    → count_where p xs ≡ count_where q xs
unfolding count_where
count_where_congr p q [] h = refl
count_where_congr p q (x ∷ xs) h = ground (arith, h x, count_where_congr p q xs h)

-- The provider of the job of a lease does not depend on the columns that a claim writes.
routed_after_claim :
    (k : String) (owner provider : String) (seconds : ℕ) (now : Timestamp) (id : String)
    (jobs : List Job)
    → any
        (λ j. has_id id j && j.implementation_provider == provider)
        (update_where (has_id k) (start_run owner seconds now) jobs)
      ≡ any (λ j. has_id id j && j.implementation_provider == provider) jobs
unfolding start_run
routed_after_claim k owner provider seconds now id jobs =
    any-update_where (λ j. has_id id j && j.implementation_provider == provider) (has_id k)
      (start_run owner seconds now) jobs (λ j. refl)

provider_count-write_claim :
    (j : Job) (owner : String) (seconds : ℕ) (now : Timestamp) (db : Db) (provider : String)
    → provider_count now (write_claim j owner seconds now db) provider
      ≤ suc (provider_count now db provider)
unfolding provider_count write_claim
provider_count-write_claim j owner seconds now db provider =
    let after = update_where (has_id j.id) (start_run owner seconds now) db.jobs in
    omega (
      arith,
      count_where-insert_row (is_live_for now after provider) (new_lease j owner seconds now)
          db.leases,
      count_where_congr (is_live_for now after provider) (is_live_for now db.jobs provider)
          db.leases (λ l. rw (routed_after_claim j.id owner provider seconds now l.job_id db.jobs)),
    )

-- What the limits promise after a claim.
pub record WithinLimits (now : Timestamp) (global_limit : ℕ) (limits : List (String × ℕ)) (db : Db)
    (job : Job) : Type 0 where
  pub global : active_count now db ≤ global_limit
  pub provider :
      provider_count now db job.implementation_provider
      ≤ limit_of limits job.implementation_provider

abbrev pub ClaimedWithin : Timestamp → ℕ → List (String × ℕ) → Option Job × Db → Type 0
ClaimedWithin now global_limit limits (none, db) = Unit
ClaimedWithin now global_limit limits (some job, db) = WithinLimits now global_limit limits db job

within :
    (j : Job) (owner : String) (seconds : ℕ) (now : Timestamp) (global_limit : ℕ)
    (limits : List (String × ℕ)) (db : Db)
    → active_count now db < global_limit
    → has_slot now limits db j ≡ true
    → WithinLimits now global_limit limits
        (write_claim j owner seconds now db)
        (start_run owner seconds now j)
unfolding active_count write_claim has_slot
within j owner seconds now global_limit limits db free slot = record {
  global =
      omega (arith, count_where-insert_row (is_live now) (new_lease j owner seconds now) db.leases);
  provider = omega (
    arith,
    provider_count-write_claim j owner seconds now db j.implementation_provider,
    ltb→lt (provider_count now db j.implementation_provider)
        (limit_of limits j.implementation_provider) slot,
  );
}

-- After a claim there are at most `global_limit` live leases, and at most as many live leases of the
-- provider of the claimed job as the limit of that provider, the new lease counted.
pub claim_next_within :
    (owner : String) (seconds global_limit : ℕ) (limits : List (String × ℕ)) (now : Timestamp)
    (db : Db)
    → OnOk
        (ClaimedWithin now global_limit limits)
        (claim_next owner seconds global_limit limits now db)
unfolding claim_next
claim_next_within owner seconds global_limit limits now db =
    if_ind (OnOk (ClaimedWithin now global_limit limits)) (leb global_limit (active_count now db)) _
      _ (λ _. tt)
      (λ free. elim (Option-cases (choose now limits db)) [
        | inl e ↦ rw e tt
        | inr (j, e) ↦ rw e (
            if_ind (OnOk (ClaimedWithin now global_limit limits))
              (any (holds j.id) db.leases || any (has_key j.concurrency_key) db.leases) _ _
              (λ _. tt)
              (λ _.
                within j owner seconds now global_limit limits db (ground arith)
                  (choose_shape now limits db j e).2))
      ])
