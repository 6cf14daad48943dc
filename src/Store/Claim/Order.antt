-- ===== src/Store/Claim/Order.antt =====
-- The order of the queue of src/symphony/store.py.
use openhands_symphony.Base.{
  any_false→All, ℕ, Bool, true, false, ◌≡◌, refl, sym, ◌∙◌, String, none, some, [], ◌∷◌, find-none,
  List, arith, select, All, order_by-IsOrdered, All-order_by_inv, find_first, any-order_by,
  Bool-cases, inl, inr,
}
use openhands_symphony.Models.{Timestamp, Job}
use openhands_symphony.Store.Schema.{Db}
use openhands_symphony.Store.Claim.{
  key_before, flag_key, last_claim, queue_before, is_candidate, candidates, has_slot, choose,
}

key_asymmetric :
    (a b : ℕ) (m n : Bool)
    → (m ≡ true → n ≡ false)
    → key_before a b m ≡ true
    → key_before b a n ≡ false
key_asymmetric a b m n h e = ground arith

key_transitive :
    (a b c : ℕ) (m n k : Bool)
    → (m ≡ false → n ≡ false → k ≡ false)
    → key_before a b m ≡ false
    → key_before b c n ≡ false
    → key_before a c k ≡ false
key_transitive a b c m n k h e e' = ground arith

-- Four keys, compared one after the other.
abbrev lex : (a₁ a₂ a₃ a₄ b₁ b₂ b₃ b₄ : ℕ) → Bool
lex a₁ a₂ a₃ a₄ b₁ b₂ b₃ b₄ =
    key_before a₁ b₁ (key_before a₂ b₂ (key_before a₃ b₃ (key_before a₄ b₄ false)))

module _ (a₁ a₂ a₃ a₄ b₁ b₂ b₃ b₄ : ℕ) where
  lex_asymmetric : lex a₁ a₂ a₃ a₄ b₁ b₂ b₃ b₄ ≡ true → lex b₁ b₂ b₃ b₄ a₁ a₂ a₃ a₄ ≡ false
  lex_asymmetric =
      key_asymmetric a₁ b₁ (key_before a₂ b₂ (key_before a₃ b₃ (key_before a₄ b₄ false)))
        (key_before b₂ a₂ (key_before b₃ a₃ (key_before b₄ a₄ false)))
        (key_asymmetric a₂ b₂ (key_before a₃ b₃ (key_before a₄ b₄ false))
          (key_before b₃ a₃ (key_before b₄ a₄ false))
          (key_asymmetric a₃ b₃ (key_before a₄ b₄ false) (key_before b₄ a₄ false)
            (key_asymmetric a₄ b₄ false false (λ _. refl))))

  module _ (c₁ c₂ c₃ c₄ : ℕ) where
    lex_transitive :
        lex a₁ a₂ a₃ a₄ b₁ b₂ b₃ b₄ ≡ false
        → lex b₁ b₂ b₃ b₄ c₁ c₂ c₃ c₄ ≡ false
        → lex a₁ a₂ a₃ a₄ c₁ c₂ c₃ c₄ ≡ false
    lex_transitive =
        key_transitive a₁ b₁ c₁ (key_before a₂ b₂ (key_before a₃ b₃ (key_before a₄ b₄ false)))
          (key_before b₂ c₂ (key_before b₃ c₃ (key_before b₄ c₄ false)))
          (key_before a₂ c₂ (key_before a₃ c₃ (key_before a₄ c₄ false)))
          (key_transitive a₂ b₂ c₂ (key_before a₃ b₃ (key_before a₄ b₄ false))
            (key_before b₃ c₃ (key_before b₄ c₄ false)) (key_before a₃ c₃ (key_before a₄ c₄ false))
            (key_transitive a₃ b₃ c₃ (key_before a₄ b₄ false) (key_before b₄ c₄ false)
              (key_before a₄ c₄ false) (key_transitive a₄ b₄ c₄ false false false (λ _ _. refl))))

queue_asymmetric : (db : Db) (x y : Job) → queue_before db x y ≡ true → queue_before db y x ≡ false
unfolding queue_before
queue_asymmetric db x y =
    lex_asymmetric (flag_key x.retry_requested) (last_claim db x.repository) x.updated_at
      x.created_at (flag_key y.retry_requested) (last_claim db y.repository) y.updated_at
      y.created_at

queue_transitive :
    (db : Db) (x y z : Job)
    → queue_before db x y ≡ false
    → queue_before db y z ≡ false
    → queue_before db x z ≡ false
unfolding queue_before
queue_transitive db x y z =
    lex_transitive (flag_key x.retry_requested) (last_claim db x.repository) x.updated_at
      x.created_at (flag_key y.retry_requested) (last_claim db y.repository) y.updated_at
      y.created_at (flag_key z.retry_requested) (last_claim db z.repository) z.updated_at
      z.created_at

queue_irreflexive : (db : Db) (x : Job) → queue_before db x x ≡ false
queue_irreflexive db x = elim (Bool-cases (queue_before db x x)) [
  | inl e ↦ queue_asymmetric db x x e
  | inr e ↦ e
]

All-select_inv {ℓ κ} :
    {A : Type ℓ} (P : A → Type κ) (p : A → Bool) (xs : List A)
    → All P (select p xs)
    → All (λ x. p x ≡ true → P x) xs
unfolding select
All-select_inv P p [] h = tt
All-select_inv P p (x ∷ xs) h = elim (Bool-cases (p x)) [
  | inl e ↦
      let h' : All P (x ∷ select p xs) = rw e at h in ((λ _. h'.0), All-select_inv P p xs h'.1)
  | inr e ↦
      let h' : All P (select p xs) = rw e at h in
      ((λ t. absurd (ground arith)), All-select_inv P p xs h')
]

-- The chosen job stands first: no candidate of the table whose provider has a slot is before it in
-- the order of the queue.
pub choose_first :
    (now : Timestamp) (limits : List (String × ℕ)) (db : Db) (j : Job)
    → choose now limits db ≡ some j
    → All
        (λ y.
          is_candidate now db y ≡ true
          → has_slot now limits db y ≡ true
          → queue_before db y j ≡ false)
        db.jobs
unfolding choose candidates
choose_first now limits db j e = All-select_inv _ (is_candidate now db) db.jobs (
    All-order_by_inv (queue_before db) _ _ (
      find_first (queue_before db) (has_slot now limits db) _ j (queue_irreflexive db j)
        (order_by-IsOrdered (queue_before db) (queue_asymmetric db) (queue_transitive db) _) e))

-- Nothing is chosen only if no candidate has a slot.
pub choose-none :
    (now : Timestamp) (limits : List (String × ℕ)) (db : Db)
    → choose now limits db ≡ none
    → All (λ y. is_candidate now db y ≡ true → has_slot now limits db y ≡ false) db.jobs
unfolding choose candidates
choose-none now limits db e = All-select_inv _ (is_candidate now db) db.jobs (
    any_false→All (has_slot now limits db) _
      (sym (any-order_by (queue_before db) (has_slot now limits db) _) ∙ find-none _ _ e))
