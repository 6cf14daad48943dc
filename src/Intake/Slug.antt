-- ===== src/Intake/Slug.antt =====
-- On `short_slug` of src/symphony/intake.py.
use openhands_symphony.Base.{
  length, ℕ, zero, suc, ◌≤◌, Bool, true, false, ◌≡◌, ◌≢◌, refl, List, [], ◌∷◌, ◌||◌, ◌==◌, nat_eq,
  arith, All, inl, inr, if_ind, List-cases, map, select, ltb,
}
use openhands_symphony.Intake.{
  Unicode, dash, is_slug_char, lower_code, dash_runs, strip_left, strip_right, take, or_work,
  short_slug,
}

-- a lower-case letter, a digit or a dash
abbrev pub is_safe : ℕ → Bool
is_safe c = is_slug_char c || c == dash

abbrev pub IsSafe : List ℕ → Type 0
IsSafe = All (λ c. is_safe c ≡ true)

dash_runs-IsSafe : (r : Bool) (cs : List ℕ) → IsSafe (dash_runs r cs)
unfolding dash_runs
dash_runs-IsSafe r [] = tt
dash_runs-IsSafe r (c ∷ cs) =
    let rest = dash_runs-IsSafe true cs in
    if_ind IsSafe (is_slug_char c) _ _ (λ e. (ground (arith, e), dash_runs-IsSafe false cs))
      (λ _. if_ind IsSafe r _ _ (λ _. rest) (λ _. (refl, rest)))

strip_left-IsSafe : (cs : List ℕ) → IsSafe cs → IsSafe (strip_left cs)
unfolding strip_left
strip_left-IsSafe [] h = tt
strip_left-IsSafe (c ∷ cs) h =
    if_ind IsSafe (c == dash) _ _ (λ _. strip_left-IsSafe cs h.1) (λ _. h)

strip_right-IsSafe : (cs : List ℕ) → IsSafe cs → IsSafe (strip_right cs)
unfolding strip_right
strip_right-IsSafe [] h = tt
strip_right-IsSafe (c ∷ cs) h = elim (List-cases (strip_right cs)) [
  | inl e ↦ rw (e, strip_right) (if_ind IsSafe (c == dash) _ _ (λ _. tt) (λ _. (h.0, tt)))
  | inr (d, (ds, e)) ↦ rw (e, strip_right) (h.0, rw e at (strip_right-IsSafe cs h.1))
]

take-IsSafe : (n : ℕ) (cs : List ℕ) → IsSafe cs → IsSafe (take n cs)
take-IsSafe zero cs h = tt
take-IsSafe (suc n) [] h = tt
take-IsSafe (suc n) (c ∷ cs) h = (h.0, take-IsSafe n cs h.1)

-- The text does not end in a dash.
abbrev pub EndsWell : List ℕ → Type 0
EndsWell [] = Unit
EndsWell (c ∷ []) = (c == dash) ≡ false
EndsWell (c ∷ d ∷ ds) = EndsWell (d ∷ ds)

strip_right-EndsWell : (cs : List ℕ) → EndsWell (strip_right cs)
unfolding strip_right
strip_right-EndsWell [] = tt
strip_right-EndsWell (c ∷ cs) = elim (List-cases (strip_right cs)) [
  | inl e ↦ rw (e, strip_right) (if_ind EndsWell (c == dash) _ _ (λ _. tt) (λ t. t))
  | inr (d, (ds, e)) ↦ rw (e, strip_right) (rw e at (strip_right-EndsWell cs))
]

-- The text does not begin with a dash.
abbrev pub StartsWell : List ℕ → Type 0
StartsWell [] = Unit
StartsWell (c ∷ cs) = (c == dash) ≡ false

strip_left-StartsWell : (cs : List ℕ) → StartsWell (strip_left cs)
unfolding strip_left
strip_left-StartsWell [] = tt
strip_left-StartsWell (c ∷ cs) =
    if_ind StartsWell (c == dash) _ _ (λ _. strip_left-StartsWell cs) (λ e. e)

strip_right-StartsWell : (cs : List ℕ) → StartsWell cs → StartsWell (strip_right cs)
unfolding strip_right
strip_right-StartsWell [] h = tt
strip_right-StartsWell (c ∷ cs) h = elim (List-cases (strip_right cs)) [
  | inl e ↦ rw (e, strip_right) (if_ind StartsWell (c == dash) _ _ (λ _. tt) (λ t. t))
  | inr (d, (ds, e)) ↦ rw (e, strip_right) h
]

take-StartsWell : (n : ℕ) (cs : List ℕ) → StartsWell cs → StartsWell (take n cs)
take-StartsWell zero cs h = tt
take-StartsWell (suc n) [] h = tt
take-StartsWell (suc n) (c ∷ cs) h = h

length-strip_right-le : (cs : List ℕ) → length (strip_right cs) ≤ length cs
unfolding strip_right
length-strip_right-le [] = omega arith
length-strip_right-le (c ∷ cs) = elim (List-cases (strip_right cs)) [
  | inl e ↦ rw (e, strip_right) (ground arith)
  | inr (d, (ds, e)) ↦
      rw (e, strip_right)
        (let h : length (d ∷ ds) ≤ length cs = rw e at (length-strip_right-le cs) in omega arith)
]

length-take-le : (n : ℕ) (cs : List ℕ) → length (take n cs) ≤ n
length-take-le zero cs = omega arith
length-take-le (suc n) [] = omega arith
length-take-le (suc n) (c ∷ cs) = omega (arith, length-take-le n cs)

pub record IsSlug (max_length : ℕ) (s : List ℕ) : Type 0 where
  pub safe : IsSafe s
  pub not_empty : s ≢ []
  pub bounded : length s ≤ max_length
  pub starts : StartsWell s
  pub ends : EndsWell s

or_work-IsSlug :
    (n : ℕ) (s : List ℕ)
    → 4 ≤ n
    → IsSafe s
    → length s ≤ n
    → StartsWell s
    → EndsWell s
    → IsSlug n (or_work s)
or_work-IsSlug n [] h safe bounded starts ends = record {
  safe = (refl, (refl, (refl, (refl, tt))));
  not_empty = λ e. cc e;
  bounded = omega arith;
  starts = refl;
  ends = refl;
}
or_work-IsSlug n (c ∷ cs) h safe bounded starts ends = record {
  safe = safe;
  not_empty = λ e. cc e;
  bounded = bounded;
  starts = starts;
  ends = ends;
}

-- Whatever the title, the slug is not empty, has lower-case letters, digits and dashes only, no dash
-- at either end, and no more characters than the bound, which must leave room for the four of "work".
pub short_slug-IsSlug :
    (u : Unicode) (title : List ℕ) (max_length : ℕ)
    → 4 ≤ max_length
    → IsSlug max_length (short_slug u title max_length)
unfolding short_slug
short_slug-IsSlug u title max_length h =
    let lowered = map lower_code (select (λ c. ltb c 128) (u.nfkd title)) in
    let value = strip_right (strip_left (dash_runs false lowered)) in
    let safe = strip_right-IsSafe _ (strip_left-IsSafe _ (dash_runs-IsSafe false lowered)) in
    let starts = strip_right-StartsWell _ (strip_left-StartsWell (dash_runs false lowered)) in
    or_work-IsSlug max_length (strip_right (take max_length value)) h
      (strip_right-IsSafe _ (take-IsSafe max_length value safe))
      (omega
        (arith, length-strip_right-le (take max_length value), length-take-le max_length value))
      (strip_right-StartsWell _ (take-StartsWell max_length value starts))
      (strip_right-EndsWell (take max_length value))
