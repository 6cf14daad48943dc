-- ===== src/Store/Log/Deliveries.antt =====
-- On the webhook deliveries of src/symphony/store.py.
use openhands_symphony.Base.{
  ℕ, String, true, false, not, ◌≡◌, refl, ◌∙◌, Option, ◌==◌, string_eq, arith, eq_refl, any,
  any-insert_row, Bool-cases, inl, inr,
}
use openhands_symphony.Models.{Timestamp}
use openhands_symphony.Store.Schema.{Db}
use openhands_symphony.Store.Log.{has_delivery, record_delivery, delivery_recorded}

module _ (id : String) (name hash : String) (repository : Option String) (number : Option ℕ)
    (now : Timestamp) (db : Db) where
  -- A delivery is inserted just when it was not recorded, and is recorded after the call; of the other
  -- deliveries none is added or forgotten.
  pub record_delivery_lem :
      ((record_delivery id name hash repository number now db).0 ≡ not (delivery_recorded id db))
      × (delivery_recorded id (record_delivery id name hash repository number now db).1 ≡ true)
      × ((k : String)
          → (id == k) ≡ false
          → delivery_recorded k (record_delivery id name hash repository number now db).1
            ≡ delivery_recorded k db)
  unfolding record_delivery delivery_recorded
  record_delivery_lem = elim (Bool-cases (any (has_delivery id) db.deliveries)) [
    | inl old ↦ rw old (refl, old, λ k ne. refl)
    | inr new ↦ rw new (
      refl,
      any-insert_row (has_delivery id) _ db.deliveries ∙ ground (arith, eq_refl id),
      λ k ne. any-insert_row (has_delivery k) _ db.deliveries ∙ ground arith,
    )
  ]

  -- Recording a delivery again, with any content, reports a duplicate and changes nothing.
  pub record_delivery_twice :
      (name' hash' : String) (repository' : Option String) (number' : Option ℕ) (later : Timestamp)
      → let db' = (record_delivery id name hash repository number now db).1 in
        record_delivery id name' hash' repository' number' later db' ≡ (false, db')
  record_delivery_twice name' hash' repository' number' later = again
    where
      recorded :
          delivery_recorded id (record_delivery id name hash repository number now db).1 ≡ true
      recorded = record_delivery_lem.1

      again :
          record_delivery id name' hash' repository' number' later
            (record_delivery id name hash repository number now db).1
          ≡ (false, (record_delivery id name hash repository number now db).1)
      again = unfold record_delivery delivery_recorded in rw recorded refl
