-- ===== src/Coordinator/Command/Once.antt =====
-- On `apply_control_comment` of src/symphony/coordinator.py.
use openhands_symphony.Base.{
  ℕ, suc, String, Bool, true, false, ◌≡◌, refl, subst, Option, ◌==◌, ◌&&◌, string_eq, if_ind, any,
  any-delete_where_self,
}
use openhands_symphony.Models.{Job}
use openhands_symphony.Store.Log.{acquire_operation_lock, delivery_recorded, release_operation_lock}
use openhands_symphony.Store.Log.Deliveries.{record_delivery_lem}
use openhands_symphony.Store.Jobs.{get_job}
use openhands_symphony.Store.Control.{Command}
use openhands_symphony.Store.Reach.{Reach}
use openhands_symphony.Store.Reach.Recorded.{Reach-delivery_recorded}
use openhands_symphony.Coordinator.Exec.{World, Outcome, returned, raised, Exec, continue_ind}
use openhands_symphony.Coordinator.Host.{Host}
use openhands_symphony.Coordinator.Runs.{release_lock}
use openhands_symphony.Coordinator.Command.{
  control, delivery_id, lock_name, apply_locked, apply_control_comment,
}

module _ (h : Host) (repository : String) (issue_number comment_id : ℕ) where
  -- The comment is on record if the answer says that it was applied.
  abbrev Applied : Outcome (Option Job × Bool) × World → Type 0
  Applied (returned (job, true), w) =
      delivery_recorded (delivery_id h repository comment_id) w.db ≡ true
  Applied (returned (job, false), w) = Unit
  Applied (raised f, w) = Unit

  abbrev released : Outcome (Option Job × Bool) × World → Outcome (Option Job × Bool) × World
  released r = (r.0, release_lock h (lock_name h repository comment_id) r.1)

  released-Applied :
      (command : Command) (w : World)
      → Applied (released (apply_locked h repository issue_number comment_id command w))
  unfolding apply_locked release_operation_lock delivery_recorded
  released-Applied command w =
      if_ind (λ (m : Exec (Option Job × Bool)). Applied (released (m w)))
        (delivery_recorded (delivery_id h repository comment_id) w.db) _ _ (λ _. tt)
        (λ _.
          continue_ind (λ r. Applied (released r)) (control h repository issue_number command w).0 _
            _ (λ job. (record_delivery_lem _ _ _ _ _ _ _).1) (λ _. tt))

  -- The attempt to get the lock of the comment.
  abbrev asked : World → Bool × World
  asked w =
      let (acquired, db) =
        acquire_operation_lock (lock_name h repository comment_id) h.owner 900 (h.clock w.tick)
          w.db in
      (acquired, record w { db = db; tick = suc w.tick })

  apply-Applied :
      (command : Command) (w : World)
      → Applied (apply_control_comment h repository issue_number comment_id command w)
  unfolding apply_control_comment
  apply-Applied command w =
      if_ind (λ (m : Exec (Option Job × Bool)). Applied (m w))
        (delivery_recorded (delivery_id h repository comment_id) w.db) _ _ (λ _. tt)
        (λ _.
          if_ind (λ (m : Exec (Option Job × Bool)). Applied (m (asked w).1)) (asked w).0 _ _
            (λ _. released-Applied command (asked w).1) (λ _. tt))

  -- After a call for a comment returned that it applied the command, the command of that comment is
  -- not applied again: in every later world v, whatever calls of the store by whatever processes led
  -- to its database, a call for this comment, whatever command it reads, returns the stored job,
  -- answers that nothing was applied, and changes nothing. A call that raised is not covered: it
  -- records the comment only behind the command.
  pub apply_control_comment_once :
      (command : Command) (w w' : World) (job : Option Job)
      → apply_control_comment h repository issue_number comment_id command w
        ≡ (returned (job, true), w')
      → (v : World) → Reach h.hashing h.search_in w'.db v.db
      → (command' : Command)
      → apply_control_comment h repository issue_number comment_id command' v
        ≡ (returned (get_job repository issue_number v.db, false), v)
  unfolding apply_control_comment
  apply_control_comment_once command w w' job e v later command' =
      let applied : delivery_recorded (delivery_id h repository comment_id) w'.db ≡ true =
        subst Applied e (apply-Applied command w) in
      let on_record : delivery_recorded (delivery_id h repository comment_id) v.db ≡ true =
        Reach-delivery_recorded h.hashing h.search_in (delivery_id h repository comment_id) w'.db
          v.db later applied in
      rw on_record refl

  -- The coordinator does not hold the lock of the comment.
  abbrev pub IsUnlocked : World → Type 0
  IsUnlocked w =
      any (λ l. l.name == lock_name h repository comment_id && l.owner == h.owner)
        w.db.operation_locks
      ≡ false

  -- The calls that got past the lock: those that applied the command, and those that raised.
  abbrev pub UnlockedAfter : Outcome (Option Job × Bool) × World → Type 0
  UnlockedAfter (returned (job, true), w) = IsUnlocked w
  UnlockedAfter (returned (job, false), w) = Unit
  UnlockedAfter (raised f, w) = IsUnlocked w

  released-UnlockedAfter :
      (o : Outcome (Option Job × Bool)) (w : World) → UnlockedAfter (released (o, w))
  unfolding release_operation_lock
  released-UnlockedAfter (returned (job, true)) w = any-delete_where_self _ w.db.operation_locks
  released-UnlockedAfter (returned (job, false)) w = tt
  released-UnlockedAfter (raised f) w = any-delete_where_self _ w.db.operation_locks

  -- When the call has applied the command, or raised an exception from anywhere inside it, the lock of
  -- the comment is free of this coordinator again.
  pub apply_control_comment-UnlockedAfter :
      (command : Command) (w : World)
      → UnlockedAfter (apply_control_comment h repository issue_number comment_id command w)
  unfolding apply_control_comment
  apply_control_comment-UnlockedAfter command w =
      if_ind (λ (m : Exec (Option Job × Bool)). UnlockedAfter (m w))
        (delivery_recorded (delivery_id h repository comment_id) w.db) _ _ (λ _. tt)
        (λ _.
          if_ind (λ (m : Exec (Option Job × Bool)). UnlockedAfter (m (asked w).1)) (asked w).0 _ _
            (λ _.
              released-UnlockedAfter
                (apply_locked h repository issue_number comment_id command (asked w).1).0
                (apply_locked h repository issue_number comment_id command (asked w).1).1)
            (λ _. tt))
