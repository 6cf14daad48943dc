-- ===== src/Store/Schema.antt =====
-- The tables of src/symphony/store.py and the outcome of a transaction. A transaction that raises
-- is rolled back, so an error carries no new database: the caller goes on from the one it had.
use openhands_symphony.Base.{
  ◌≡◌, subst, ℕ, String, Bool, Option, List, [], ◌&&◌, ◌==◌, string_eq, nat_eq,
}
use openhands_symphony.Models.{Timestamp, JobState, Job, ValidationResult}

pub record Lease : Type 0 where
  pub concurrency_key : String
  pub job_id : String
  pub owner : String
  pub expires_at : Timestamp
  pub heartbeat_at : Timestamp

pub record Delivery : Type 0 where
  pub delivery_id : String
  pub event_name : String
  pub repository : Option String
  pub issue_number : Option ℕ
  pub received_at : Timestamp
  pub payload_hash : String

-- What the store puts into `detail_json`; `other` is the text of a detail that a caller passes.
pub data Detail : Type 0 where
  created_detail : (snapshot_hash : String) → Detail
  accepted_detail : (snapshot_hash : String) → Detail
  claimed_detail : (owner : String) (expires_at : Timestamp) → Detail
  attempt_detail : (attempt : ℕ) (conversation_id session_id : Option String) → Detail
  transition_detail :
      (from to : JobState)
      (phase actionable_message terminal_reason validation_summary : Option String)
      → Detail
  control_detail : (command : String) (reset_pre_provider_attempts : Bool) → Detail
  result_detail : (outcome summary question_or_reason conversation_id : String) → Detail
  review_detail : (provider event recommendation conversation_id : String) → Detail
  pass_detail : ℕ → Detail
  run_detail : (provider conversation_id : String) → Detail
  empty_detail : Detail
  other : String → Detail

pub record JobEvent : Type 0 where
  pub job_id : String
  pub at : Timestamp
  pub kind : String
  pub detail : Detail

pub record ValidationRow : Type 0 where
  pub job_id : String
  pub attempt : ℕ
  pub result : ValidationResult

pub record Backoff : Type 0 where
  pub provider : String
  pub reason : String
  pub until_at : Timestamp
  pub updated_at : Timestamp

pub record OperationLock : Type 0 where
  pub name : String
  pub owner : String
  pub expires_at : Timestamp

-- The tables. Rows stand in the order of their row ids; `id` columns that count rows are left out.
pub record Db : Type 0 where
  pub jobs : List Job
  pub leases : List Lease
  pub deliveries : List Delivery
  pub job_events : List JobEvent
  pub validation_results : List ValidationRow
  pub provider_backoff : List Backoff
  pub operation_locks : List OperationLock

-- A new database: every table is empty.
abbrev pub empty_db : Db
empty_db = record {
  jobs = [];
  leases = [];
  deliveries = [];
  job_events = [];
  validation_results = [];
  provider_backoff = [];
  operation_locks = [];
}

-- `StoreError`, by its reason, and `sqlite3.IntegrityError`.
pub data Error : Type 0 where
  unknown_job : String → Error
  invalid_transition : (from to : JobState) → Error
  unsupported_fields : List String → Error
  unknown_command : String → Error
  not_running not_requeued integrity_error lease_expired : Error

pub data Result {ℓ} (A : Type ℓ) : Type ℓ where
  ok : A → Result A
  err : Error → Result A

-- `WHERE id=?`
abbrev pub has_id : String → Job → Bool
has_id k j = j.id == k

-- `WHERE repository=? AND issue_number=?`
abbrev pub has_issue : String → ℕ → Job → Bool
has_issue r n j = j.repository == r && j.issue_number == n

-- `WHERE job_id=?` on the leases
abbrev pub holds : String → Lease → Bool
holds k l = l.job_id == k

-- `WHERE concurrency_key=?` on the leases
abbrev pub has_key : String → Lease → Bool
has_key k l = l.concurrency_key == k

-- What a call that returned must satisfy.
abbrev pub OnOk {ℓ κ} : {A : Type ℓ} → (A → Type κ) → Result A → Type κ
OnOk P (ok a) = P a
OnOk P (err e) = Unit

pub OnOk-elim {ℓ κ} :
    {A : Type ℓ} (P : A → Type κ) (r : Result A) (a : A) → r ≡ ok a → OnOk P r → P a
OnOk-elim P r a e h = subst (OnOk P) e h
