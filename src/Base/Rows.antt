-- ===== src/Base/Rows.antt =====
-- The statements of SQL that the store uses, over a table that is a list of rows.
use Prim.Native.Nat.{ℕ, suc}
use mathlib.Core.Path.{◌≡◌, refl, sym, subst, ◌∙◌}
use mathlib.Core.Logic.{inl, inr}
use mathlib.Core.Bool.{Bool, true, false, ◌||◌}
use mathlib.Core.Option.{Option, none, some}
use mathlib.Core.List.{List, [], ◌∷◌, ◌++◌}
use native.Mathlib.Omega.{arith}
use openhands_symphony.Base.Tests.{if◌then◌else◌, if_ind, Bool-cases}

module _ {ℓ} {A : Type ℓ} where
  -- `SELECT ... WHERE p`, first row
  unfoldable pub find : (A → Bool) → List A → Option A
  find p [] = none
  find p (x ∷ xs) = if p x then some x else find p xs

  -- `EXISTS (SELECT ... WHERE p)`
  unfoldable pub any : (A → Bool) → List A → Bool
  any p [] = false
  any p (x ∷ xs) = p x || any p xs

  -- `SELECT ... WHERE p`
  unfoldable pub select : (A → Bool) → List A → List A
  select p [] = []
  select p (x ∷ xs) = let rest = select p xs in if p x then x ∷ rest else rest

  -- `SELECT COUNT(*) ... WHERE p`
  unfoldable pub count_where : (A → Bool) → List A → ℕ
  count_where p [] = 0
  count_where p (x ∷ xs) = let rest = count_where p xs in if p x then suc rest else rest

  -- `UPDATE ... SET f WHERE p`
  unfoldable pub update_where : (A → Bool) → (A → A) → List A → List A
  update_where p f [] = []
  update_where p f (x ∷ xs) = (if p x then f x else x) ∷ update_where p f xs

  -- `DELETE ... WHERE p`
  unfoldable pub delete_where : (A → Bool) → List A → List A
  delete_where p [] = []
  delete_where p (x ∷ xs) = let rest = delete_where p xs in if p x then rest else x ∷ rest

  -- `INSERT`, at the end, where the largest row id stands
  abbrev pub insert_row : A → List A → List A
  insert_row x xs = xs ++ x ∷ []

  abbrev pub All {κ} : (A → Type κ) → List A → Type κ
  All P [] = Unit
  All P (x ∷ xs) = P x × All P xs

module _ {ℓ} {A : Type ℓ} where
  pub any-insert_row :
      (p : A → Bool) (x : A) (xs : List A) → any p (insert_row x xs) ≡ any p xs || p x
  unfolding any
  any-insert_row p x [] = ground arith
  any-insert_row p x (y ∷ xs) = ground (arith, any-insert_row p x xs)

  pub find-insert_row_absent :
      (p : A → Bool) (x : A) (xs : List A) → p x ≡ false → find p (insert_row x xs) ≡ find p xs
  unfolding find
  find-insert_row_absent p x [] h = ground arith
  find-insert_row_absent p x (y ∷ xs) h = ground (arith, find-insert_row_absent p x xs)

  pub find-insert_row_new :
      (p : A → Bool) (x : A) (xs : List A)
      → any p xs ≡ false
      → p x ≡ true
      → find p (insert_row x xs) ≡ some x
  unfolding find any
  find-insert_row_new p x [] h e = ground arith
  find-insert_row_new p x (y ∷ xs) h e = ground (arith, find-insert_row_new p x xs)

  pub find_of_any-false : (p : A → Bool) (xs : List A) → any p xs ≡ false → find p xs ≡ none
  unfolding find any
  find_of_any-false p [] h = refl
  find_of_any-false p (x ∷ xs) h = ground (arith, find_of_any-false p xs)

  pub any_of_find : (p : A → Bool) (xs : List A) (x : A) → find p xs ≡ some x → any p xs ≡ true
  unfolding find any
  any_of_find p [] x h = ground arith
  any_of_find p (y ∷ xs) x h = ground (arith, any_of_find p xs x)

  pub find_holds : (p : A → Bool) (xs : List A) (x : A) → find p xs ≡ some x → p x ≡ true
  unfolding find
  find_holds p [] x h = ground arith
  find_holds p (y ∷ xs) x h = ground (arith, find_holds p xs x)

  pub find_of_any : (p : A → Bool) (xs : List A) → any p xs ≡ true → (x : A) × (find p xs ≡ some x)
  unfolding find any
  find_of_any p [] h = ground arith
  find_of_any p (x ∷ xs) h = elim (Bool-cases (p x)) [
    | inl e ↦ (x, rw e)
    | inr e ↦ let (y, found) = find_of_any p xs (ground arith) in (y, rw e found)
  ]

  pub find-none : (p : A → Bool) (xs : List A) → find p xs ≡ none → any p xs ≡ false
  unfolding find any
  find-none p [] h = refl
  find-none p (x ∷ xs) h = ground (arith, find-none p xs)

module _ {ℓ} {A : Type ℓ} where
  -- An update that keeps the test keeps the answer.
  pub any-update_where :
      (p q : A → Bool) (f : A → A) (xs : List A)
      → ((x : A) → p (f x) ≡ p x)
      → any p (update_where q f xs) ≡ any p xs
  unfolding any update_where
  any-update_where p q f [] h = refl
  any-update_where p q f (x ∷ xs) h = ground (arith, h x, any-update_where p q f xs h)

  pub any-delete_where :
      (p q : A → Bool) (xs : List A) → any p xs ≡ false → any p (delete_where q xs) ≡ false
  unfolding any delete_where
  any-delete_where p q [] h = refl
  any-delete_where p q (x ∷ xs) h = ground (arith, any-delete_where p q xs)

  pub any-delete_where_self : (p : A → Bool) (xs : List A) → any p (delete_where p xs) ≡ false
  unfolding any delete_where
  any-delete_where_self p [] = refl
  any-delete_where_self p (x ∷ xs) = ground (arith, any-delete_where_self p xs)

  -- Rows that no deleted row is found by are found as before.
  pub find-delete_where :
      (p q : A → Bool) (xs : List A)
      → ((x : A) → p x ≡ true → q x ≡ false)
      → find p (delete_where q xs) ≡ find p xs
  unfolding find delete_where
  find-delete_where p q [] h = refl
  find-delete_where p q (x ∷ xs) h = ground (arith, h x, find-delete_where p q xs h)

  pub find-update_where_other :
      (p q : A → Bool) (f : A → A) (xs : List A)
      → ((x : A) → q x ≡ true → p (f x) ≡ p x)
      → ((x : A) → p x ≡ true → q x ≡ false)
      → find p (update_where q f xs) ≡ find p xs
  unfolding find update_where
  find-update_where_other p q f [] h k = refl
  find-update_where_other p q f (x ∷ xs) h k =
      ground (arith, h x, k x, find-update_where_other p q f xs h k)

  -- An update that keeps the test gives the updated row.
  pub find-update_where :
      (p : A → Bool) (f : A → A) (xs : List A)
      → ((x : A) → p (f x) ≡ p x)
      → (x : A) → find p xs ≡ some x
      → find p (update_where p f xs) ≡ some (f x)
  unfolding find update_where
  find-update_where p f [] h x e = ground arith
  find-update_where p f (y ∷ xs) h x e = ground (arith, h y, find-update_where p f xs h x)

module _ {ℓ} {A : Type ℓ} where
  pub All-insert_row {κ} :
      (P : A → Type κ) (x : A) (xs : List A) → All P xs → P x → All P (insert_row x xs)
  All-insert_row P x [] h px = (px, tt)
  All-insert_row P x (y ∷ xs) h px = (h.0, All-insert_row P x xs h.1 px)

  pub All-imp {κ μ} :
      (P : A → Type κ) (Q : A → Type μ) (xs : List A) → ((x : A) → P x → Q x) → All P xs → All Q xs
  All-imp P Q [] g h = tt
  All-imp P Q (x ∷ xs) g h = (g x h.0, All-imp P Q xs g h.1)

  pub All-delete_where {κ} :
      (P : A → Type κ) (q : A → Bool) (xs : List A) → All P xs → All P (delete_where q xs)
  unfolding delete_where
  All-delete_where P q [] h = tt
  All-delete_where P q (x ∷ xs) h =
      let rest = All-delete_where P q xs h.1 in
      if_ind (All P) (q x) _ _ (λ _. rest) (λ _. (h.0, rest))

  -- Each row that the update hits, and each that it leaves.
  pub All-update_where {κ μ} :
      (P : A → Type κ) (Q : A → Type μ) (q : A → Bool) (f : A → A) (xs : List A)
      → ((x : A) → q x ≡ true → P x → Q (f x))
      → ((x : A) → q x ≡ false → P x → Q x)
      → All P xs
      → All Q (update_where q f xs)
  unfolding update_where
  All-update_where P Q q f [] hit miss h = tt
  All-update_where P Q q f (x ∷ xs) hit miss h = (
    if_ind Q (q x) _ _ (λ e. hit x e h.0) (λ e. miss x e h.0),
    All-update_where P Q q f xs hit miss h.1,
  )

  pub All_of_find {κ} :
      (P : A → Type κ) (p : A → Bool) (xs : List A) (x : A) → find p xs ≡ some x → All P xs → P x
  unfolding find
  All_of_find P p [] x e h = absurd (ground arith)
  All_of_find P p (y ∷ xs) x e h = elim (Bool-cases (p y)) [
    | inl t ↦ subst P (ground arith) h.0
    | inr t ↦ All_of_find P p xs x (ground arith) h.1
  ]

  -- The rows that stay come with the test that kept them.
  pub All-delete_where_test :
      (q : A → Bool) (xs : List A) → All (λ x. q x ≡ false) (delete_where q xs)
  unfolding delete_where
  All-delete_where_test q [] = tt
  All-delete_where_test q (x ∷ xs) =
      let rest = All-delete_where_test q xs in
      if_ind (All (λ y. q y ≡ false)) (q x) _ _ (λ _. rest) (λ e. (e, rest))

module _ {ℓ} {A : Type ℓ} where
  -- What a selection returns passed the test, and was in the table.
  pub All-select {κ} :
      (P : A → Type κ) (p : A → Bool) (xs : List A)
      → All P xs
      → All (λ x. P x × (p x ≡ true)) (select p xs)
  unfolding select
  All-select P p [] h = tt
  All-select P p (x ∷ xs) h =
      let rest = All-select P p xs h.1 in
      if_ind (All (λ y. P y × (p y ≡ true))) (p x) _ _ (λ e. ((h.0, e), rest)) (λ _. rest)

  pub any-imp :
      (p q : A → Bool) (xs : List A)
      → ((x : A) → p x ≡ true → q x ≡ true)
      → any p xs ≡ true
      → any q xs ≡ true
  unfolding any
  any-imp p q [] h e = e
  any-imp p q (x ∷ xs) h e = ground (arith, h x, any-imp p q xs h)

  -- The first match is also hit by the update.
  pub find-update_where_hit :
      (p q : A → Bool) (f : A → A) (xs : List A)
      → ((x : A) → p (f x) ≡ p x)
      → (x : A) → find p xs ≡ some x
      → q x ≡ true
      → find p (update_where q f xs) ≡ some (f x)
  unfolding find update_where
  find-update_where_hit p q f [] h x e hit = ground arith
  find-update_where_hit p q f (y ∷ xs) h x e hit = elim (Bool-cases (p y)) [
    | inl t ↦
        let same : y ≡ x = ground arith in
        subst (λ z. find p (update_where q f (z ∷ xs)) ≡ some (f x)) (sym same)
          (rw (hit, h x ∙ subst (λ z. p z ≡ true) same t))
    | inr t ↦
        let rest = find-update_where_hit p q f xs h x (ground arith) hit in
        let kept : p (if q y then f y else y) ≡ false =
          if_ind (λ z. p z ≡ false) (q y) _ _ (λ _. h y ∙ t) (λ _. t) in
        rw kept rest
  ]

module _ {ℓ} {A : Type ℓ} where
  pub any_false→All : (p : A → Bool) (xs : List A) → any p xs ≡ false → All (λ x. p x ≡ false) xs
  unfolding any
  any_false→All p [] h = tt
  any_false→All p (x ∷ xs) h = (ground arith, any_false→All p xs (ground arith))

  pub any-false_imp :
      (p q : A → Bool) (xs : List A)
      → ((x : A) → p x ≡ true → q x ≡ true)
      → any q xs ≡ false
      → any p xs ≡ false
  unfolding any
  any-false_imp p q [] h e = e
  any-false_imp p q (x ∷ xs) h e = ground (arith, h x, any-false_imp p q xs h)

  -- Two facts about every row give a third.
  pub All-imp₂ {κ μ ν} :
      (P : A → Type κ) (Q : A → Type μ) (R : A → Type ν) (xs : List A)
      → ((x : A) → P x → Q x → R x)
      → All P xs
      → All Q xs
      → All R xs
  All-imp₂ P Q R [] g hp hq = tt
  All-imp₂ P Q R (x ∷ xs) g hp hq = (g x hp.0 hq.0, All-imp₂ P Q R xs g hp.1 hq.1)
