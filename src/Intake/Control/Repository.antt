-- ===== src/Intake/Control/Repository.antt =====
-- On `validate_repository_name` of src/symphony/intake.py.
use openhands_symphony.Base.{
  ℕ, Bool, true, false, ◌≡◌, refl, List, [], ◌∷◌, ◌++◌, ◌==◌, ◌↔◌, nat_eq, All, arith, subst, sym,
  Bool-cases, inl, inr, ap,
}
use openhands_symphony.Intake.Control.{
  slash, is_name_char, is_name, is_repository, has_dots, is_valid_repository,
}

abbrev IsWord : List ℕ → Type 0
IsWord = All (λ c. is_name_char c ≡ true)

abbrev NonEmpty : (started : Bool) → List ℕ → Type 0
NonEmpty true cs = Unit
NonEmpty false [] = ⊥
NonEmpty false (c ∷ cs) = Unit

-- An owner and a name, of the safe characters, on the two sides of one slash.
pub record Parts (started : Bool) (repository : List ℕ) : Type 0 where
  pub owner : List ℕ
  pub name : List ℕ
  pub joined : repository ≡ owner ++ slash ∷ name
  pub owner_IsWord : IsWord owner
  pub name_IsWord : IsWord name
  pub owner_NonEmpty : NonEmpty started owner
  pub name_NonEmpty : NonEmpty false name

is_name-IsWord :
    (started : Bool) (cs : List ℕ) → is_name started cs ≡ true → IsWord cs × NonEmpty started cs
unfolding is_name
is_name-IsWord true [] h = (tt, tt)
is_name-IsWord false [] h = absurd (ground arith)
is_name-IsWord true (c ∷ cs) h = ((ground arith, (is_name-IsWord true cs (ground arith)).0), tt)
is_name-IsWord false (c ∷ cs) h = ((ground arith, (is_name-IsWord true cs (ground arith)).0), tt)

is_name_of :
    (started : Bool) (cs : List ℕ) → IsWord cs → NonEmpty started cs → is_name started cs ≡ true
unfolding is_name
is_name_of true [] h n = refl
is_name_of false [] h n = absurd n
is_name_of started (c ∷ cs) h n = rw h.0 (is_name_of true cs h.1 tt)

same_code : (c d : ℕ) → (c == d) ≡ true → c ≡ d
same_code c d h = ground arith

not_slash : (c : ℕ) → is_name_char c ≡ true → (c == slash) ≡ false
unfolding is_name_char
not_slash c h = ground arith

started_NonEmpty : (started : Bool) → started ≡ true → NonEmpty started []
started_NonEmpty true h = tt
started_NonEmpty false h = absurd (ground arith)

cons_NonEmpty : (started : Bool) (c : ℕ) (cs : List ℕ) → NonEmpty started (c ∷ cs)
cons_NonEmpty true c cs = tt
cons_NonEmpty false c cs = tt

Parts-cons :
    (started : Bool) (c : ℕ) (cs : List ℕ)
    → is_name_char c ≡ true
    → Parts true cs
    → Parts started (c ∷ cs)
Parts-cons started c cs h p = record {
  owner = c ∷ p.owner;
  name = p.name;
  joined = ap (λ k. c ∷ k) p.joined;
  owner_IsWord = (h, p.owner_IsWord);
  name_IsWord = p.name_IsWord;
  owner_NonEmpty = cons_NonEmpty started c p.owner;
  name_NonEmpty = p.name_NonEmpty;
}

is_repository-Parts :
    (started : Bool) (cs : List ℕ) → is_repository started cs ≡ true → Parts started cs
unfolding is_repository
is_repository-Parts started [] h = absurd (ground arith)
is_repository-Parts started (c ∷ cs) h = elim (Bool-cases (c == slash)) [
  | inl e ↦
      let (name_IsWord, name_NonEmpty) = is_name-IsWord false cs (ground (arith, e)) in
      record {
        owner = [];
        name = cs;
        joined = ap (λ k. k ∷ cs) (same_code c slash e);
        owner_IsWord = tt;
        name_IsWord = name_IsWord;
        owner_NonEmpty = started_NonEmpty started (ground (arith, e));
        name_NonEmpty = name_NonEmpty;
      }
  | inr e ↦
      Parts-cons started c cs (ground (arith, e)) (is_repository-Parts true cs (ground (arith, e)))
]

is_repository_of :
    (started : Bool) (owner name : List ℕ)
    → IsWord owner
    → IsWord name
    → NonEmpty started owner
    → NonEmpty false name
    → is_repository started (owner ++ slash ∷ name) ≡ true
unfolding is_repository
is_repository_of true [] name ho hn so sn = is_name_of false name hn sn
is_repository_of false [] name ho hn so sn = absurd so
is_repository_of started (c ∷ owner) name ho hn so sn =
    let rest = is_repository_of true owner name ho.1 hn tt sn in
    ground (arith, not_slash c ho.0, rest)

-- A repository identifier is accepted exactly if it is an owner and a name with one slash between
-- them, both not empty and of letters, digits, dots, dashes and underscores, without two dots in a row.
pub is_valid_repository-Parts :
    (repository : List ℕ)
    → (is_valid_repository repository ≡ true)
      ↔ (Parts false repository × (has_dots repository ≡ false))
unfolding is_valid_repository
is_valid_repository-Parts repository = (
  (λ h. (is_repository-Parts false repository (ground arith), ground arith)),
  (λ (p, d).
      let accepted =
        is_repository_of false p.owner p.name p.owner_IsWord p.name_IsWord p.owner_NonEmpty
          p.name_NonEmpty in
      rw (subst (λ r. is_repository false r ≡ true) (sym p.joined) accepted, d) refl),
)
