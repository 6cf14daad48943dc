-- ===== src/Store/Reach/Recorded.antt =====
-- That a delivery stays on record, whatever the store does (src/symphony/store.py).
use openhands_symphony.Base.{
  ℕ, String, Bool, true, ◌≡◌, refl, sym, subst, ◌∙◌, Option, arith, string_eq, any, if_ind,
  delete_where, any-insert_row,
}
use openhands_symphony.Models.{Timestamp, Hashing}
use openhands_symphony.Store.Schema.{Db, OnOk-elim}
use openhands_symphony.Store.Log.{
  delivery_recorded, record_delivery, has_delivery, record_validation, record_event,
  set_provider_backoff, acquire_operation_lock, is_lock, is_stale, release_operation_lock,
}
use openhands_symphony.Store.Jobs.{
  ensure_job, update_snapshot_if_unclaimed, accept_snapshot, begin_attempt, update_job,
}
use openhands_symphony.Store.Transition.{transition}
use openhands_symphony.Store.Control.{EventSearch, request_control}
use openhands_symphony.Store.Claim.{claim_next}
use openhands_symphony.Store.Reach.{
  Reach, here, next, Step, ensures, refreshes, accepts, begins, updates, moves, controls, reaps,
  renews, claims, delivers, validates, logs, backs_off, locks, unlocks,
}
use openhands_symphony.Store.Reach.Deliveries.{
  KeepsDeliveries, KeepsDeliveriesOn, ensure_job-KeepsDeliveries, accept_snapshot-KeepsDeliveries,
  begin_attempt-KeepsDeliveries, update_job-KeepsDeliveries, transition-KeepsDeliveries,
  request_control-KeepsDeliveries, renew_lease-KeepsDeliveries, claim_next-KeepsDeliveries,
  record_validation-KeepsDeliveriesOn, record_event-KeepsDeliveriesOn,
  reap_expired_leases-KeepsDeliveries,
}

-- The delivery is on record afterwards if it was before.
abbrev KeepsRecord : String → Db → Db → Type 0
KeepsRecord k db db' =
    any (has_delivery k) db.deliveries ≡ true → any (has_delivery k) db'.deliveries ≡ true

same-KeepsRecord : (k : String) (db db' : Db) → KeepsDeliveriesOn db db' → KeepsRecord k db db'
same-KeepsRecord k db db' e h = rw e h

record_delivery-KeepsRecord :
    (k id name hash : String) (repository : Option String) (n : Option ℕ) (now : Timestamp)
    (db : Db)
    → KeepsRecord k db (record_delivery id name hash repository n now db).1
unfolding record_delivery
record_delivery-KeepsRecord k id name hash repository n now db h =
    if_ind (λ (r : Bool × Db). any (has_delivery k) r.1.deliveries ≡ true)
      (any (has_delivery id) db.deliveries) _ _ (λ _. h)
      (λ _. any-insert_row (has_delivery k) _ db.deliveries ∙ ground (arith, h))

module _ (h : Hashing) (search_in : EventSearch) where
  Step-KeepsRecord : (k : String) (db db' : Db) → Step h search_in db db' → KeepsRecord k db db'
  unfolding update_snapshot_if_unclaimed set_provider_backoff acquire_operation_lock
      release_operation_lock
  Step-KeepsRecord k db db' (ensures id s r now out e) = same-KeepsRecord k db db' (
      OnOk-elim (KeepsDeliveries db) (ensure_job h id s r now db) (out, db') e
        (ensure_job-KeepsDeliveries h id s r now db))
  Step-KeepsRecord k db db' (refreshes s r now e) =
      same-KeepsRecord k db db' (subst (KeepsDeliveriesOn db) (sym e) refl)
  Step-KeepsRecord k db db' (accepts id s now later out e) = same-KeepsRecord k db db' (
      OnOk-elim (KeepsDeliveries db) (accept_snapshot h id s now later db) (out, db') e
        (accept_snapshot-KeepsDeliveries h id s now later db))
  Step-KeepsRecord k db db' (begins id conversation_id session_id now out e) =
      same-KeepsRecord k db db' (
        OnOk-elim (KeepsDeliveries db) (begin_attempt id conversation_id session_id now db)
          (out, db') e (begin_attempt-KeepsDeliveries id conversation_id session_id now db))
  Step-KeepsRecord k db db' (updates id values now out e) = same-KeepsRecord k db db' (
      OnOk-elim (KeepsDeliveries db) (update_job id values now db) (out, db') e
        (update_job-KeepsDeliveries id values now db))
  Step-KeepsRecord k db db' (moves id s args now out e) = same-KeepsRecord k db db' (
      OnOk-elim (KeepsDeliveries db) (transition id s args now db) (out, db') e
        (transition-KeepsDeliveries id s args now db))
  Step-KeepsRecord k db db' (controls repository n command now out e) = same-KeepsRecord k db db' (
      OnOk-elim (KeepsDeliveries db) (request_control search_in repository n command now db)
        (out, db') e (request_control-KeepsDeliveries search_in repository n command now db))
  Step-KeepsRecord k db db' (reaps now ids e) =
      same-KeepsRecord k db db'
        (subst (KeepsDeliveriesOn db) (sym e) (reap_expired_leases-KeepsDeliveries now ids db))
  Step-KeepsRecord k db db' (renews id owner seconds now e) =
      same-KeepsRecord k db db'
        (subst (KeepsDeliveriesOn db) (sym e) (renew_lease-KeepsDeliveries id owner seconds now db))
  Step-KeepsRecord k db db' (claims owner seconds global_limit limits now out e) =
      same-KeepsRecord k db db' (
        OnOk-elim (KeepsDeliveries db) (claim_next owner seconds global_limit limits now db)
          (out, db') e (claim_next-KeepsDeliveries owner seconds global_limit limits now db))
  Step-KeepsRecord k db db' (delivers id name hash repository n now e) =
      subst (KeepsRecord k db) (sym e)
        (record_delivery-KeepsRecord k id name hash repository n now db)
  Step-KeepsRecord k db db' (validates id attempt result e) = same-KeepsRecord k db db' (
      OnOk-elim (KeepsDeliveriesOn db) (record_validation id attempt result db) db' e
        (record_validation-KeepsDeliveriesOn id attempt result db))
  Step-KeepsRecord k db db' (logs id kind detail now e) = same-KeepsRecord k db db' (
      OnOk-elim (KeepsDeliveriesOn db) (record_event id kind detail now db) db' e
        (record_event-KeepsDeliveriesOn id kind detail now db))
  Step-KeepsRecord k db db' (backs_off provider reason seconds now e) =
      same-KeepsRecord k db db' (subst (KeepsDeliveriesOn db) (sym e) refl)
  Step-KeepsRecord k db db' (locks name owner seconds now e) = same-KeepsRecord k db db' (
      subst (KeepsDeliveriesOn db) (sym e) (
        if_ind (KeepsDeliveries db)
          (any (is_lock name) (delete_where (is_stale now) db.operation_locks)) _ _ (λ _. refl)
          (λ _. refl)))
  Step-KeepsRecord k db db' (unlocks name owner e) =
      same-KeepsRecord k db db' (subst (KeepsDeliveriesOn db) (sym e) refl)

  -- A delivery on record stays on record, whatever calls of the store commit.
  pub Reach-delivery_recorded :
      (k : String) (db db' : Db)
      → Reach h search_in db db'
      → delivery_recorded k db ≡ true
      → delivery_recorded k db' ≡ true
  unfolding delivery_recorded
  Reach-delivery_recorded k db db' here on = on
  Reach-delivery_recorded k db db' (next {db' = d} r st) on =
      Step-KeepsRecord k d db' st (Reach-delivery_recorded k db d r on)
