-- ===== src/Github/Pulls/Section.antt =====
-- On the validation section of a pull request's body (src/symphony/github.py).
use openhands_symphony.Base.{
  List-cases, ◌∙◌, ℕ, true, ◌≡◌, refl, ap, subst, sym, some, List, [], ◌∷◌, ◌++◌, Option-cases,
  Bool-cases, inl, inr,
}
use openhands_symphony.Github.Pulls.{
  starts_with, split_at, section_head, section_end, section_of, replace_section,
}

-- A place of the needle in a text.
pub record Place (needle cs before rest : List ℕ) : Type 0 where
  pub joined : cs ≡ before ++ rest
  pub found : starts_with needle rest ≡ true

-- The old and the new body agree before and behind the section.
pub record Replaced (body validation updated : List ℕ) : Type 0 where
  pub before : List ℕ
  pub section : List ℕ
  pub after : List ℕ
  pub old : body ≡ before ++ (section ++ after)
  pub new : updated ≡ before ++ (section_of validation ++ after)
  pub head : starts_with section_head (section ++ after) ≡ true
  pub end : starts_with section_end after ≡ true

some_eq : {A : Type 0} {a b : A} → some a ≡ some b → a ≡ b
some_eq h = cc

split_at-Place :
    (needle cs : List ℕ) (p : List ℕ × List ℕ)
    → split_at needle cs ≡ some p
    → Place needle cs p.0 p.1
unfolding split_at
split_at-Place needle [] p h = elim (Bool-cases (starts_with needle [])) [
  | inl e ↦
      subst (λ q. Place needle [] q.0 q.1) (some_eq (rw (e, split_at) at h))
        (record { joined = refl; found = e })
  | inr e ↦ let h' = rw (e, split_at) at h in cc
]
split_at-Place needle (c ∷ cs) p h = elim (Bool-cases (starts_with needle (c ∷ cs))) [
  | inl e ↦
      subst (λ q. Place needle (c ∷ cs) q.0 q.1) (some_eq (rw (e, split_at) at h))
        (record { joined = refl; found = e })
  | inr e ↦ elim (Option-cases (split_at needle cs)) [
    | inl f ↦ let h' = rw (e, split_at, f) at h in cc
    | inr (q, f) ↦
        let place = split_at-Place needle cs q f in
        subst (λ q. Place needle (c ∷ cs) q.0 q.1) (some_eq (rw (e, split_at, f) at h))
          (record { joined = ap (λ xs. c ∷ xs) place.joined; found = place.found })
  ]
]

-- When the validation of a pull request is replaced, the body before and behind its section is kept,
-- and the section is the new text between the head and the unresolved risks.
pub replace_section-Replaced :
    (body validation updated : List ℕ)
    → replace_section body validation ≡ some updated
    → Replaced body validation updated
unfolding replace_section
replace_section-Replaced body validation updated h =
    elim (Option-cases (split_at section_head body)) [
      | inl e ↦ let h' = rw (e, replace_section) at h in cc
      | inr ((before, rest), e) ↦ elim (List-cases rest) [
        | inl r ↦ let h' = rw (e, replace_section, r) at h in cc
        | inr (c, (tail, r)) ↦ elim (Option-cases (split_at section_end tail)) [
          | inl f ↦ let h' = rw (e, replace_section, r, f) at h in cc
          | inr ((old, after), f) ↦
              let start = split_at-Place section_head body (before, rest) e in
              let close = split_at-Place section_end tail (old, after) f in
              let whole : rest ≡ (c ∷ old) ++ after = r ∙ ap (λ xs. c ∷ xs) close.joined in
              record {
                before = before;
                section = c ∷ old;
                after = after;
                old = start.joined ∙ ap (λ xs. before ++ xs) whole;
                new = sym (some_eq (rw (e, replace_section, r, f) at h));
                head = subst (λ xs. starts_with section_head xs ≡ true) whole start.found;
                end = close.found;
              }
        ]
      ]
    ]
