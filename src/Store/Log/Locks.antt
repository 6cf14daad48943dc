-- ===== src/Store/Log/Locks.antt =====
-- On the operation locks of src/symphony/store.py.
use openhands_symphony.Base.{
  ℕ, ◌+◌, ◌≤◌, ◌<◌, String, Bool, true, false, not, ◌≡◌, refl, List, [], ◌∷◌, ◌==◌, ◌&&◌, string_eq,
  arith, eq_iff, eq_refl, any, delete_where, insert_row, any-insert_row, Bool-cases, inl, inr, All,
  if_ind,
}
use openhands_symphony.Models.{Timestamp}
use openhands_symphony.Store.Schema.{OperationLock, Db}
use openhands_symphony.Store.Log.{is_stale, is_lock, acquire_operation_lock, release_operation_lock}

-- The lock `name` is held by `owner` at the time `now`.
abbrev pub is_held_by : String → String → Timestamp → OperationLock → Bool
is_held_by name owner now l = is_lock name l && l.owner == owner && not (is_stale now l)

abbrev pub Holds : String → String → Timestamp → Db → Type 0
Holds name owner now db = any (is_held_by name owner now) db.operation_locks ≡ true

held_live :
    (name owner : String) (now : Timestamp) (locks : List OperationLock)
    → any (is_held_by name owner now) locks ≡ true
    → any (is_lock name) (delete_where (is_stale now) locks) ≡ true
unfolding any delete_where
held_live name owner now [] h = h
held_live name owner now (l ∷ locks) h = ground (arith, held_live name owner now locks)

held_after_stale :
    (name owner : String) (now later : Timestamp) (locks : List OperationLock)
    → now ≤ later
    → any (is_held_by name owner later) locks ≡ true
    → any (is_held_by name owner later) (delete_where (is_stale now) locks) ≡ true
unfolding any delete_where
held_after_stale name owner now later [] le h = h
held_after_stale name owner now later (l ∷ locks) le h =
    ground (arith, held_after_stale name owner now later locks le)

held_after_release :
    (name owner name' owner' : String) (now : Timestamp) (locks : List OperationLock)
    → (owner == owner') ≡ false
    → any (is_held_by name owner now) locks ≡ true
    → any
        (is_held_by name owner now)
        (delete_where (λ l. l.name == name' && l.owner == owner') locks)
      ≡ true
unfolding any delete_where
held_after_release name owner name' owner' now [] ne h = h
held_after_release name owner name' owner' now (l ∷ locks) ne h = ground (
  arith,
  eq_iff l.owner owner,
  eq_iff l.owner owner',
  eq_iff owner owner',
  held_after_release name owner name' owner' now locks ne,
)

any_insert_old :
    (p : OperationLock → Bool) (x : OperationLock) (xs : List OperationLock)
    → any p xs ≡ true
    → any p (insert_row x xs) ≡ true
any_insert_old p x xs h = ground (arith, any-insert_row p x xs)

-- A lock that is acquired is held by its owner at every time before its expiry.
pub acquire-Holds :
    (name owner : String) (seconds : ℕ) (now later : Timestamp) (db : Db)
    → (acquire_operation_lock name owner seconds now db).0 ≡ true
    → later < now + seconds
    → Holds name owner later (acquire_operation_lock name owner seconds now db).1
unfolding acquire_operation_lock
acquire-Holds name owner seconds now later db e lt =
    let live = delete_where (is_stale now) db.operation_locks in
    elim (Bool-cases (any (is_lock name) live)) [
      | inl taken ↦ absurd (ground arith)
      | inr free ↦ rw free (
          ground (
            arith,
            any-insert_row (is_held_by name owner later)
                (record { name = name; owner = owner; expires_at = now + seconds }) live,
            eq_refl name,
            eq_refl owner,
          ))
    ]

-- While a lock is held, nobody acquires it, the holder included.
pub acquire_held :
    (name owner : String) (now : Timestamp) (db : Db)
    → Holds name owner now db
    → (other : String) (seconds : ℕ) → (acquire_operation_lock name other seconds now db).0 ≡ false
unfolding acquire_operation_lock
acquire_held name owner now db h other seconds =
    rw (held_live name owner now db.operation_locks h) refl

-- What processes do to the lock table: they ask for locks and release locks.
pub data Attempt : Type 0 where
  acquires : (name owner : String) (seconds : ℕ) (at : Timestamp) → Attempt
  releases : (name owner : String) → Attempt

unfoldable pub attempt : Attempt → Db → Db
attempt (acquires name owner seconds at) db = (acquire_operation_lock name owner seconds at db).1
attempt (releases name owner) db = release_operation_lock name owner db

unfoldable pub attempts : List Attempt → Db → Db
attempts [] db = db
attempts (a ∷ rest) db = attempts rest (attempt a db)

-- The attempt is a request by anybody, made by the time `now`, or a release by another owner.
abbrev pub Foreign : String → Timestamp → Attempt → Type 0
Foreign owner now (acquires name other seconds at) = at ≤ now
Foreign owner now (releases name other) = (owner == other) ≡ false

attempt-Holds :
    (name owner : String) (now : Timestamp) (a : Attempt) (db : Db)
    → Foreign owner now a
    → Holds name owner now db
    → Holds name owner now (attempt a db)
unfolding attempt acquire_operation_lock release_operation_lock
attempt-Holds name owner now (releases name' other) db foreign h =
    held_after_release name owner name' other now db.operation_locks foreign h
attempt-Holds name owner now (acquires name' other seconds at) db foreign h =
    let kept = held_after_stale name owner at now db.operation_locks foreign h in
    if_ind (λ (r : Bool × Db). Holds name owner now r.1)
      (any (is_lock name') (delete_where (is_stale at) db.operation_locks)) _ _ (λ _. kept)
      (λ _. any_insert_old _ _ _ kept)

attempts-Holds :
    (name owner : String) (now : Timestamp) (tries : List Attempt) (db : Db)
    → All (Foreign owner now) tries
    → Holds name owner now db
    → Holds name owner now (attempts tries db)
unfolding attempts
attempts-Holds name owner now [] db foreign h = h
attempts-Holds name owner now (a ∷ rest) db foreign h =
    attempts-Holds name owner now rest (attempt a db) foreign.1
      (attempt-Holds name owner now a db foreign.0 h)

-- Mutual exclusion: from an acquisition until its expiry nobody else acquires the lock, whatever
-- locks anybody asks for in between, and whatever locks the others release.
pub lock_exclusive :
    (name owner other : String) (seconds seconds' : ℕ) (now later : Timestamp)
    (tries : List Attempt) (db : Db)
    → (acquire_operation_lock name owner seconds now db).0 ≡ true
    → later < now + seconds
    → All (Foreign owner later) tries
    → (acquire_operation_lock name other seconds' later
        (attempts tries (acquire_operation_lock name owner seconds now db).1)).0
      ≡ false
lock_exclusive name owner other seconds seconds' now later tries db e lt foreign =
    acquire_held name owner later _
      (attempts-Holds name owner later tries _ foreign
        (acquire-Holds name owner seconds now later db e lt))
      other seconds'
