-- ===== src/Coordinator/Exec.antt =====
-- The methods of src/symphony/coordinator.py as actions: they change the database and the outside
-- world, and may raise. What was committed or sent before a raise stays.
use openhands_symphony.Base.{
  ℕ, suc, String, Bool, Option, none, some, List, [], ◌∷◌, ◌++◌, ◌≡◌, refl,
}
use openhands_symphony.Models.{Timestamp, JobState, Job}
use openhands_symphony.Store.Schema.{Error, Result, ok, err, Db}
use openhands_symphony.Store.Control.{Command}

-- A provider conversation.
pub record ProviderRun : Type 0 where
  pub provider : String
  pub conversation_id : String
  pub session_id : Option String

-- The calls that change something outside, in order.
pub data Sent : Type 0 where
  labels_set : (job_id : String) → JobState → Sent
  status_commented : (job_id : String) → Sent
  control_labels_set : (repository : String) → ℕ → Command → Sent
  run_canceled : ProviderRun → Sent
  report_written : (job_id : String) → Sent
  result_commented : (job_id : String) → Sent
  validation_published : (job_id : String) → Sent
  turn_started : (job_id provider : String) (read_only : Bool) → Sent
  pushed : (job_id : String) → Sent
  pr_created : (job_id : String) → Sent
  review_posted : (job_id : String) → Sent

-- The exceptions that the coordinator tells apart.
pub data Failure : Type 0 where
  store_error : Error → Failure
  github_error stale_issue intake_error provider_error workspace_error os_error : String → Failure
  unexpected : String → Failure

pub data Outcome {ℓ} (A : Type ℓ) : Type ℓ where
  returned : A → Outcome A
  raised : Failure → Outcome A

-- The local variables of `_run_claimed` that its except clauses read: `job` and
-- `provider_turn_started`.
pub record Frame : Type 0 where
  pub job : Job
  pub provider_turn_started : Bool

-- `tick` counts the calls that read a clock or reach outside.
pub record World : Type 0 where
  pub db : Db
  pub tick : ℕ
  pub sent : List Sent
  pub frame : Frame

abbrev pub Action {ℓ} : Type 0 → Type ℓ → Type ℓ
Action S A = S → Outcome A × S

abbrev pub Exec {ℓ} : Type ℓ → Type ℓ
Exec A = World → Outcome A × World

abbrev pub pure {ℓ} : {S : Type 0} {A : Type ℓ} → A → Action S A
pure a w = (returned a, w)

abbrev pub raise {ℓ} : {S : Type 0} {A : Type ℓ} → Failure → Action S A
raise f w = (raised f, w)

abbrev pub continue {ℓ κ} :
    {S : Type 0} {A : Type ℓ} {B : Type κ} → Outcome A → (A → S → Outcome B × S) → S → Outcome B × S
continue (returned a) f w = f a w
continue (raised e) f w = (raised e, w)

-- What holds after the rest of an action, and after an exception, holds of the sequence.
pub continue_ind {ℓ κ μ} :
    {S : Type 0} {A : Type ℓ} {B : Type κ} (P : Outcome B × S → Type μ) (o : Outcome A)
    (k : A → S → Outcome B × S) (w : S)
    → ((a : A) → P (k a w))
    → ((f : Failure) → P (raised f, w))
    → P (continue o k w)
continue_ind P (returned a) k w go stop = go a
continue_ind P (raised f) k w go stop = stop f

infixl 5 ◌>>=◌ ◌>>◌
abbrev pub ◌>>=◌ {ℓ κ} :
    {S : Type 0} {A : Type ℓ} {B : Type κ} → Action S A → (A → Action S B) → Action S B
◌>>=◌ m f w = let (r, w') = m w in continue r f w'

abbrev pub ◌>>◌ {ℓ κ} :
    {S : Type 0} {A : Type ℓ} {B : Type κ} → Action S A → Action S B → Action S B
m >> n = m >>= λ _. n

-- A read of the database.
abbrev pub query {ℓ} : {A : Type ℓ} → (Db → A) → Exec A
query f w = (returned (f w.db), w)

abbrev pub settle {ℓ} : {A : Type ℓ} → Result (A × Db) → World → Outcome A × World
settle (ok (a, db)) w = (returned a, record w { db = db; tick = suc w.tick })
settle (err e) w = (raised (store_error e), record w { tick = suc w.tick })

abbrev pub settle_log : Result Db → World → Outcome (Unit {0}) × World
settle_log (ok db) w = (returned tt, record w { db = db; tick = suc w.tick })
settle_log (err e) w = (raised (store_error e), record w { tick = suc w.tick })

-- A transaction: what holds after each way out holds.
pub settle_ind {ℓ κ} :
    {A : Type ℓ} (P : Outcome A × World → Type κ) (r : Result (A × Db)) (w : World)
    → ((a : A) (db : Db) → r ≡ ok (a, db) → P (returned a, record w { db = db; tick = suc w.tick }))
    → ((e : Error) → P (raised (store_error e), record w { tick = suc w.tick }))
    → P (settle r w)
settle_ind P (ok (a, db)) w go stop = go a db refl
settle_ind P (err e) w go stop = stop e

-- `except`: the handler takes the exceptions that it is for, and passes the others on.
abbrev pub handle {ℓ} :
    {A : Type ℓ} → (Failure → Option (Exec A)) → Outcome A → World → Outcome A × World
handle h (returned a) w = (returned a, w)
handle h (raised f) w = elim (h f) [ none ↦ (raised f, w) | some m ↦ m w ]

abbrev pub try_except {ℓ} : {A : Type ℓ} → Exec A → (Failure → Option (Exec A)) → Exec A
try_except m h w = let (r, w') = m w in handle h r w'

-- `finally`: the clean-up runs on both ways out.
abbrev pub try_finally {ℓ} : {A : Type ℓ} → Exec A → (World → World) → Exec A
try_finally m clean w = let (r, w') = m w in (r, clean w')

module _ (clock : ℕ → Timestamp) where
  -- A transaction, at the time of its tick.
  abbrev pub commit {ℓ} : {A : Type ℓ} → (Timestamp → Db → Result (A × Db)) → Exec A
  commit f w = settle (f (clock w.tick) w.db) w

  abbrev pub commit_log : (Timestamp → Db → Result Db) → Exec (Unit {0})
  commit_log f w = settle_log (f (clock w.tick) w.db) w

  -- A transaction that cannot fail.
  abbrev pub commit_total {ℓ} : {A : Type ℓ} → (Timestamp → Db → A × Db) → Exec A
  commit_total f w =
      let (a, db) = f (clock w.tick) w.db in (returned a, record w { db = db; tick = suc w.tick })

-- A question to the outside, and a call that changes something there, whether it answers or raises.
abbrev pub ask {ℓ} : {A : Type ℓ} → (ℕ → Outcome A) → Exec A
ask f w = (f w.tick, record w { tick = suc w.tick })

abbrev pub send {ℓ} : {A : Type ℓ} → Sent → (ℕ → Outcome A) → Exec A
send s f w = (f w.tick, record w { tick = suc w.tick; sent = w.sent ++ s ∷ [] })

-- What holds of the value and the state of an action that returned.
abbrev OnReturn {ℓ κ} : {S : Type 0} {A : Type ℓ} → (A → S → Type κ) → Outcome A × S → Type κ
OnReturn P (returned a, w) = P a w
OnReturn P (raised f, w) = Unit

pub record Post {ℓ κ} {S : Type 0} {A : Type ℓ} (P : A → S → Type κ) (r : Outcome A × S)
    : Type κ where
  pub post : OnReturn P r

-- In a sequence, what the last action establishes.
pub Post-then {ℓ κ μ} :
    {S : Type 0} {A : Type ℓ} {B : Type κ} (P : B → S → Type μ) (r : Outcome A × S)
    (k : A → S → Outcome B × S)
    → ((a : A) (w : S) → Post P (k a w))
    → Post P (continue r.0 k r.1)
Post-then P r k go = record {
  post = continue_ind (OnReturn P) r.0 k r.1 (λ a. (go a r.1).post) (λ f. tt);
}

-- In a sequence, what the first action establishes is handed to the rest.
pub Post-after {ℓ κ μ ν} :
    {S : Type 0} {A : Type ℓ} {B : Type κ} (Q : A → S → Type ν) (P : B → S → Type μ)
    (r : Outcome A × S) (k : A → S → Outcome B × S)
    → Post Q r
    → ((a : A) (w : S) → Q a w → Post P (k a w))
    → Post P (continue r.0 k r.1)
Post-after Q P (returned a, w) k h go = go a w h.post
Post-after Q P (raised f, w) k h go = record { post = tt }

pub Post-weaken {ℓ κ ν} :
    {S : Type 0} {A : Type ℓ} (Q : A → S → Type ν) (P : A → S → Type κ) (r : Outcome A × S)
    → Post Q r
    → ((a : A) (w : S) → Q a w → P a w)
    → Post P r
Post-weaken Q P (returned a, w) h go = record { post = go a w h.post }
Post-weaken Q P (raised f, w) h go = record { post = tt }
