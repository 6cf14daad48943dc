-- ===== src/Base/Unique.antt =====
-- UNIQUE constraints: no two rows of a table agree on a key.
use mathlib.Core.Path.{◌≡◌, refl, ◌∙◌}
use mathlib.Core.Bool.{Bool, false}
use mathlib.Core.List.{List, [], ◌∷◌}
use native.Mathlib.Omega.{arith}
use openhands_symphony.Base.Tests.{if_ind}
use openhands_symphony.Base.Rows.{
  any, update_where, delete_where, insert_row, any-insert_row, any-update_where, any-delete_where,
}

module _ {ℓ} {A : Type ℓ} where
  -- `same x y` is "x and y agree on the key".
  abbrev pub IsUnique : (A → A → Bool) → List A → Type 0
  IsUnique same [] = Unit
  IsUnique same (x ∷ xs) = (any (same x) xs ≡ false) × IsUnique same xs

  any_congr : (p q : A → Bool) (xs : List A) → ((y : A) → p y ≡ q y) → any p xs ≡ any q xs
  unfolding any
  any_congr p q [] h = refl
  any_congr p q (x ∷ xs) h = ground (arith, h x, any_congr p q xs h)

  pub IsUnique-delete_where :
      (same : A → A → Bool) (q : A → Bool) (xs : List A)
      → IsUnique same xs
      → IsUnique same (delete_where q xs)
  unfolding delete_where
  IsUnique-delete_where same q [] h = tt
  IsUnique-delete_where same q (x ∷ xs) h =
      let rest = IsUnique-delete_where same q xs h.1 in
      if_ind (IsUnique same) (q x) _ _ (λ _. rest) (λ _. (any-delete_where (same x) q xs h.0, rest))

  -- An update that leaves the key alone.
  pub IsUnique-update_where :
      (same : A → A → Bool) (q : A → Bool) (f : A → A) (xs : List A)
      → ((x y : A) → same x (f y) ≡ same x y)
      → ((x y : A) → same (f x) y ≡ same x y)
      → IsUnique same xs
      → IsUnique same (update_where q f xs)
  unfolding update_where
  IsUnique-update_where same q f [] right left h = tt
  IsUnique-update_where same q f (x ∷ xs) right left h = (
    if_ind (λ z. any (same z) (update_where q f xs) ≡ false) (q x) _ _
        (λ _. any-update_where (same (f x)) q f xs (right (f x)) ∙ any_congr _ _ xs (left x) ∙ h.0)
        (λ _. any-update_where (same x) q f xs (right x) ∙ h.0),
    IsUnique-update_where same q f xs right left h.1,
  )

  pub IsUnique-insert_row :
      (same : A → A → Bool) (x : A) (xs : List A)
      → ((y : A) → same y x ≡ same x y)
      → IsUnique same xs
      → any (same x) xs ≡ false
      → IsUnique same (insert_row x xs)
  unfolding any
  IsUnique-insert_row same x [] symmetric h new = (refl, tt)
  IsUnique-insert_row same x (y ∷ xs) symmetric h new = (
    ground (arith, any-insert_row (same y) x xs, symmetric y, h.0),
    IsUnique-insert_row same x xs symmetric h.1 (ground arith),
  )
