-- ===== src/Base/Sort.antt =====
-- `ORDER BY`: a stable insertion sort by a Boolean "stands before".
use mathlib.Core.Path.{◌≡◌, refl, sym, subst}
use mathlib.Core.Bool.{Bool, true, false, ◌||◌}
use mathlib.Core.Option.{some}
use mathlib.Core.Logic.{inl, inr}
use mathlib.Core.List.{List, [], ◌∷◌}
use native.Mathlib.Omega.{arith}
use openhands_symphony.Base.Tests.{if◌then◌else◌, if_ind, Bool-cases}
use openhands_symphony.Base.Rows.{All, All-imp, any, find}

module _ {ℓ} {A : Type ℓ} where
  -- a new row goes behind the rows that do not stand after it
  unfoldable pub insert_sorted : (A → A → Bool) → A → List A → List A
  insert_sorted before x [] = x ∷ []
  insert_sorted before x (y ∷ ys) =
      let rest = insert_sorted before x ys in if before y x then y ∷ rest else x ∷ y ∷ ys

  unfoldable pub order_by : (A → A → Bool) → List A → List A
  unfolding insert_sorted
  order_by before [] = []
  order_by before (x ∷ xs) = insert_sorted before x (order_by before xs)

  -- no later row stands before an earlier one
  abbrev pub IsOrdered : (A → A → Bool) → List A → Type ℓ
  IsOrdered before [] = Unit
  IsOrdered before (x ∷ xs) = All (λ y. before y x ≡ false) xs × IsOrdered before xs

module _ {ℓ} {A : Type ℓ} (before : A → A → Bool) where
  All-insert_sorted {κ} :
      (P : A → Type κ) (x : A) (xs : List A) → P x → All P xs → All P (insert_sorted before x xs)
  unfolding insert_sorted
  All-insert_sorted P x [] px h = (px, tt)
  All-insert_sorted P x (y ∷ ys) px h =
      if_ind (All P) (before y x) _ _ (λ _. (h.0, All-insert_sorted P x ys px h.1)) (λ _. (px, h))

  All-insert_sorted_inv {κ} :
      (P : A → Type κ) (x : A) (xs : List A) → All P (insert_sorted before x xs) → P x × All P xs
  unfolding insert_sorted
  All-insert_sorted_inv P x [] h = h
  All-insert_sorted_inv P x (y ∷ ys) h =
      if_ind (λ l. All P l → P x × All P (y ∷ ys)) (before y x) _ _
        (λ _ k. let (px, rest) = All-insert_sorted_inv P x ys k.1 in (px, (k.0, rest))) (λ _ k. k) h

  pub All-order_by {κ} : (P : A → Type κ) (xs : List A) → All P xs → All P (order_by before xs)
  unfolding order_by
  All-order_by P [] h = tt
  All-order_by P (x ∷ xs) h = All-insert_sorted P x _ h.0 (All-order_by P xs h.1)

  pub All-order_by_inv {κ} : (P : A → Type κ) (xs : List A) → All P (order_by before xs) → All P xs
  unfolding order_by
  All-order_by_inv P [] h = tt
  All-order_by_inv P (x ∷ xs) h =
      let (px, rest) = All-insert_sorted_inv P x _ h in (px, All-order_by_inv P xs rest)

  any-insert_sorted :
      (p : A → Bool) (x : A) (xs : List A) → any p (insert_sorted before x xs) ≡ p x || any p xs
  unfolding insert_sorted any
  any-insert_sorted p x [] = refl
  any-insert_sorted p x (y ∷ ys) = ground (arith, any-insert_sorted p x ys)

  -- Sorting neither loses nor invents rows, as far as a test can tell.
  pub any-order_by : (p : A → Bool) (xs : List A) → any p (order_by before xs) ≡ any p xs
  unfolding order_by any
  any-order_by p [] = refl
  any-order_by p (x ∷ xs) =
      ground (arith, any-insert_sorted p x (order_by before xs), any-order_by p xs)

  module _ (asymmetric : (x y : A) → before x y ≡ true → before y x ≡ false)
      (transitive : (x y z : A)
        → before x y ≡ false
        → before y z ≡ false
        → before x z ≡ false) where
    insert_sorted-IsOrdered :
        (x : A) (xs : List A) → IsOrdered before xs → IsOrdered before (insert_sorted before x xs)
    unfolding insert_sorted
    insert_sorted-IsOrdered x [] h = (tt, tt)
    insert_sorted-IsOrdered x (y ∷ ys) h =
        let rest = insert_sorted-IsOrdered x ys h.1 in
        if_ind (IsOrdered before) (before y x) _ _
          (λ e. (All-insert_sorted (λ z. before z y ≡ false) x ys (asymmetric y x e) h.0, rest))
          (λ e. ((e, All-imp _ (λ z. before z x ≡ false) ys (λ z k. transitive z y x k e) h.0), h))

    pub order_by-IsOrdered : (xs : List A) → IsOrdered before (order_by before xs)
    unfolding order_by
    order_by-IsOrdered [] = tt
    order_by-IsOrdered (x ∷ xs) = insert_sorted-IsOrdered x _ (order_by-IsOrdered xs)

  -- The first match in an ordered table: no match stands before it.
  pub find_first :
      (p : A → Bool) (xs : List A) (x : A)
      → before x x ≡ false
      → IsOrdered before xs
      → find p xs ≡ some x
      → All (λ y. p y ≡ true → before y x ≡ false) xs
  unfolding find
  find_first p [] x irreflexive h e = tt
  find_first p (y ∷ ys) x irreflexive h e = elim (Bool-cases (p y)) [
    | inl t ↦
        let same : y ≡ x = ground arith in
        subst (λ z. All (λ w. p w ≡ true → before w z ≡ false) (y ∷ ys)) same
          (
            (λ _. subst (λ z. before z z ≡ false) (sym same) irreflexive),
            All-imp _ (λ w. p w ≡ true → before w y ≡ false) ys (λ w k _. k) h.0,
          )
    | inr t ↦ (λ e'. absurd (ground arith), find_first p ys x irreflexive h.1 (ground arith))
  ]
