-- ===== src/Base/Member.antt =====
-- Being a row of a table.
use mathlib.Core.Path.{◌≡◌, refl, sym}
use mathlib.Core.Logic.{◌⊎◌, inl, inr}
use mathlib.Core.Bool.{Bool, true}
use mathlib.Core.List.{List, [], ◌∷◌}
use openhands_symphony.Base.Rows.{All, All-imp, update_where}

module _ {A : Type 0} where
  abbrev pub In : A → List A → Type 0
  In x [] = ⊥
  In x (y ∷ ys) = (x ≡ y) ⊎ In x ys

  pub All-In : (xs : List A) → All (λ x. In x xs) xs
  All-In [] = tt
  All-In (x ∷ xs) = (inl refl, All-imp _ _ xs (λ y h. inr h) (All-In xs))

  pub In-update_where :
      (p : A → Bool) (f : A → A) (x : A) (xs : List A)
      → p x ≡ true
      → In x xs
      → In (f x) (update_where p f xs)
  unfolding update_where
  In-update_where p f x [] hit there = absurd there
  In-update_where p f x (y ∷ ys) hit (inl e) = inl (rw (sym e, hit) refl)
  In-update_where p f x (y ∷ ys) hit (inr there) = inr (In-update_where p f x ys hit there)
