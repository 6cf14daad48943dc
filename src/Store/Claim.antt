-- ===== src/Store/Claim.antt =====
-- `Store.claim_next` of src/symphony/store.py: the choice of the next job and its lease.
pub mod Order
pub mod Capacity
pub mod Sound
use openhands_symphony.Base.{
  ℕ, suc, ◌+◌, String, Bool, true, false, not, Option, none, some, List, [], ◌∷◌, ◌&&◌, ◌||◌, ◌==◌,
  string_eq, ltb, leb, if◌then◌else◌, find, any, select, count_where, update_where, insert_row,
  order_by,
}
use openhands_symphony.Models.{Timestamp, JobState, state_eq, Job}
use openhands_symphony.Store.Schema.{
  Lease, claimed_detail, JobEvent, Backoff, Db, integrity_error, Result, ok, err, has_id, holds,
  has_key,
}
use openhands_symphony.Store.Log.{log_event}
use openhands_symphony.Store.Jobs.{coalesce}

-- `expires_at>?`
abbrev pub is_live : Timestamp → Lease → Bool
is_live now l = ltb now l.expires_at

unfoldable pub active_count : Timestamp → Db → ℕ
active_count now db = count_where (is_live now) db.leases

-- The lease is live and its job, which the join finds, is routed to the provider.
abbrev pub is_live_for : Timestamp → List Job → String → Lease → Bool
is_live_for now jobs provider l =
    is_live now l && any (λ j. has_id l.job_id j && j.implementation_provider == provider) jobs

-- `provider_counts.get(provider, 0)`
unfoldable pub provider_count : Timestamp → Db → String → ℕ
provider_count now db provider = count_where (is_live_for now db.jobs provider) db.leases

-- `provider_limits.get(provider, 1)`. A negative limit acts as 0 does.
unfoldable pub limit_of : List (String × ℕ) → String → ℕ
limit_of [] provider = 1
limit_of ((name, limit) ∷ rest) provider =
    if name == provider then limit else limit_of rest provider

abbrev pub is_backed_off : Timestamp → String → Backoff → Bool
is_backed_off now provider b = b.provider == provider && ltb now b.until_at

-- The WHERE clause of the query for candidates.
unfoldable pub is_candidate : Timestamp → Db → Job → Bool
is_candidate now db j =
    state_eq j.state JobState.queued
    && not j.cancel_requested
    && not j.pause_requested
    && not (any (is_backed_off now j.implementation_provider) db.provider_backoff)
    && not (any (has_key j.concurrency_key) db.leases)

abbrev is_claim_in : List Job → String → JobEvent → Bool
is_claim_in jobs repository e =
    e.kind == "claimed" && any (λ p. has_id e.job_id p && p.repository == repository) jobs

abbrev max_key : ℕ → ℕ → ℕ
max_key a b = if ltb a b then b else a

latest : (JobEvent → Bool) → List JobEvent → ℕ
latest p [] = 0
latest p (e ∷ es) = let rest = latest p es in if p e then max_key (suc e.at) rest else rest

-- The latest claim in the repository, as a sort key: 0 stands for the empty text of COALESCE,
-- which sorts before every time, and t + 1 for the time t.
unfoldable pub last_claim : Db → String → ℕ
unfolding latest
last_claim db repository = latest (is_claim_in db.jobs repository) db.job_events

abbrev pub flag_key : Bool → ℕ
flag_key true = 0
flag_key false = 1

abbrev pub key_before : ℕ → ℕ → Bool → Bool
key_before a b next = if ltb a b then true else (if ltb b a then false else next)

-- `ORDER BY retry_requested DESC, last claim in the repository, updated_at, created_at`
unfoldable pub queue_before : Db → Job → Job → Bool
queue_before db a b = key_before (flag_key a.retry_requested) (flag_key b.retry_requested) (
    key_before (last_claim db a.repository) (last_claim db b.repository)
      (key_before a.updated_at b.updated_at (key_before a.created_at b.created_at false)))

unfoldable pub candidates : Timestamp → Db → List Job
unfolding is_candidate
candidates now db = order_by (queue_before db) (select (is_candidate now db) db.jobs)

-- The provider of the job has a free slot.
unfoldable pub has_slot : Timestamp → List (String × ℕ) → Db → Job → Bool
unfolding provider_count limit_of
has_slot now limits db j =
    ltb (provider_count now db j.implementation_provider)
      (limit_of limits j.implementation_provider)

unfoldable pub start_run : String → ℕ → Timestamp → Job → Job
start_run owner seconds now j = record j {
  state = JobState.running;
  lease_owner = some owner;
  lease_expires_at = some (now + seconds);
  heartbeat_at = some now;
  started_at = coalesce j.started_at (some now);
  updated_at = now;
  phase = "preflight";
  finished_at = none;
}

unfoldable pub new_lease : Job → String → ℕ → Timestamp → Lease
new_lease j owner seconds now = record {
  concurrency_key = j.concurrency_key;
  job_id = j.id;
  owner = owner;
  expires_at = now + seconds;
  heartbeat_at = now;
}

unfoldable pub write_claim : Job → String → ℕ → Timestamp → Db → Db
unfolding start_run new_lease log_event
write_claim j owner seconds now db =
    log_event j.id now "claimed" (claimed_detail owner (now + seconds)) (record db {
      leases = insert_row (new_lease j owner seconds now) db.leases;
      jobs = update_where (has_id j.id) (start_run owner seconds now) db.jobs;
    })

-- The chosen job: the first candidate in the queue whose provider has a slot.
unfoldable pub choose : Timestamp → List (String × ℕ) → Db → Option Job
unfolding candidates has_slot
choose now limits db = find (has_slot now limits db) (candidates now db)

-- The insertion breaks a unique key if the job, or its concurrency key, is leased already.
unfoldable pub claim_next :
    String → ℕ → ℕ → List (String × ℕ) → Timestamp → Db → Result (Option Job × Db)
unfolding active_count choose write_claim
claim_next owner seconds global_limit limits now db =
    if leb global_limit (active_count now db) then ok (none, db) else elim (choose now limits db) [
      | none ↦ ok (none, db)
      | some j ↦
          if any (holds j.id) db.leases || any (has_key j.concurrency_key) db.leases
          then err integrity_error
          else ok (some (start_run owner seconds now j), write_claim j owner seconds now db)
    ]
