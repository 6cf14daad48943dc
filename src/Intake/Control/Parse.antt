-- ===== src/Intake/Control/Parse.antt =====
-- On `parse_control_command` of src/symphony/intake.py.
use openhands_symphony.Base.{
  Bool-cases, Option-cases, ap, subst, sym, ◌∙◌, ℕ, true, false, ◌≡◌, refl, some, List, [], ◌∷◌,
  ◌++◌, ◌||◌, ◌==◌, nat_eq, map, length, All, arith, ◌⊎◌, inl, inr,
}
use openhands_symphony.Intake.{Unicode, lower_code, is_slug_char, codes, take}
use openhands_symphony.Intake.Control.{
  long_s, slash, matches_letter, match_literal, command_words, is_blank, lstrip, rstrip,
  skip_spaces, match_word, parse_control_command,
}

abbrev Among : List (List ℕ) → List ℕ → Type 0
Among [] word = ⊥
Among (w ∷ ws) word = (word ≡ w) ⊎ Among ws word

-- One of the four words.
abbrev pub IsCommand : List ℕ → Type 0
IsCommand = Among command_words

abbrev pub NoLongS : List ℕ → Type 0
NoLongS = All (λ c. (c == long_s) ≡ false)

lower_of_match :
    (letter c : ℕ)
    → matches_letter letter c ≡ true
    → (lower_code c == long_s) ≡ false
    → lower_code c ≡ letter
unfolding matches_letter
lower_of_match letter c h ns = ground arith

-- The letters that a literal matched spell it, unless one of them is a long s.
lower-match_literal :
    (literal cs rest : List ℕ)
    → match_literal literal cs ≡ some rest
    → NoLongS (map lower_code (take (length literal) cs))
    → map lower_code (take (length literal) cs) ≡ literal
unfolding match_literal
lower-match_literal [] cs rest h ns = refl
lower-match_literal (l ∷ ls) [] rest h ns = cc
lower-match_literal (l ∷ ls) (c ∷ cs) rest h ns = elim (Bool-cases (matches_letter l c)) [
  | inl e ↦
      let tail = lower-match_literal ls cs rest (rw (e, match_literal) at h) ns.1 in
      rw (lower_of_match l c e ns.0, tail) refl
  | inr e ↦ let h' = rw (e, match_literal) at h in cc
]

module _ (u : Unicode) where
  abbrev AllSpace : List ℕ → Type 0
  AllSpace = All (λ c. u.is_space c ≡ true)

  abbrev NoSpace : List ℕ → Type 0
  NoSpace = All (λ c. u.is_space c ≡ false)

  lstrip-spaces : (pre cs : List ℕ) → AllSpace pre → lstrip u (pre ++ cs) ≡ lstrip u cs
  unfolding lstrip
  lstrip-spaces [] cs h = refl
  lstrip-spaces (c ∷ pre) cs h = rw (h.0, lstrip-spaces pre cs h.1) refl

  rstrip-spaces : (post : List ℕ) → AllSpace post → rstrip u post ≡ []
  unfolding rstrip
  rstrip-spaces [] h = refl
  rstrip-spaces (c ∷ post) h = rw (rstrip-spaces post h.1, h.0) refl

  rstrip-append : (cs post : List ℕ) → AllSpace post → rstrip u (cs ++ post) ≡ rstrip u cs
  unfolding rstrip
  rstrip-append [] post h = rstrip-spaces post h
  rstrip-append (c ∷ cs) post h = rw (rstrip-append cs post h) refl

  rstrip-word : (cs : List ℕ) → NoSpace cs → rstrip u cs ≡ cs
  unfolding rstrip
  rstrip-word [] h = refl
  rstrip-word (c ∷ []) h = rw h.0 refl
  rstrip-word (c ∷ d ∷ ds) h = rw (rstrip-word (d ∷ ds) h.1) refl

  rstrip-keep :
      (a : List ℕ) (d : ℕ) (ds : List ℕ)
      → rstrip u (d ∷ ds) ≡ d ∷ ds
      → rstrip u (a ++ d ∷ ds) ≡ a ++ d ∷ ds
  unfolding rstrip
  rstrip-keep [] d ds h = h
  rstrip-keep (c ∷ []) d ds h = rw (h, rstrip) refl
  rstrip-keep (c ∷ b ∷ a) d ds h = rw (rstrip-keep (b ∷ a) d ds h) refl

  -- No letter, no digit and no slash is a space.
  abbrev pub KeepsWords : Type 0
  KeepsWords = (c : ℕ) → (is_slug_char c || c == slash) ≡ true → u.is_space c ≡ false

  NoSpace-of :
      KeepsWords → (cs : List ℕ) → All (λ c. (is_slug_char c || c == slash) ≡ true) cs → NoSpace cs
  NoSpace-of k [] h = tt
  NoSpace-of k (c ∷ cs) h = (k c h.0, NoSpace-of k cs h.1)

  matches_letter-same : (c : ℕ) → lower_code c ≡ c → matches_letter c c ≡ true
  unfolding matches_letter
  matches_letter-same c h = rw h (ground arith)

  match_literal-same :
      (cs rest : List ℕ)
      → All (λ c. lower_code c ≡ c) cs
      → match_literal cs (cs ++ rest) ≡ some rest
  unfolding match_literal
  match_literal-same [] rest h = refl
  match_literal-same (c ∷ cs) rest h =
      rw (matches_letter-same c h.0) (match_literal-same cs rest h.1)

  is_blank-spaces : (post : List ℕ) → AllSpace post → lstrip u post ≡ []
  unfolding lstrip
  is_blank-spaces [] h = refl
  is_blank-spaces (c ∷ post) h = rw h.0 (is_blank-spaces post h.1)

  lstrip-word : (d : ℕ) (ds : List ℕ) → u.is_space d ≡ false → lstrip u (d ∷ ds) ≡ d ∷ ds
  unfolding lstrip
  lstrip-word d ds h = rw h refl

  skip_spaces-append :
      (c : ℕ) (mid cs : List ℕ)
      → u.is_space c ≡ true
      → AllSpace mid
      → lstrip u cs ≡ cs
      → skip_spaces u ((c ∷ mid) ++ cs) ≡ some cs
  unfolding skip_spaces
  skip_spaces-append c mid cs h hs e = rw (h, lstrip-spaces mid cs hs, e) refl

  some_injective : {a b : List ℕ} → some a ≡ some b → a ≡ b
  some_injective h = cc

  match_word-Among :
      (words : List (List ℕ)) (cs word : List ℕ)
      → match_word u words cs ≡ some word
      → NoLongS word
      → Among words word
  unfolding match_word
  match_word-Among [] cs word h ns = cc
  match_word-Among (w ∷ ws) cs word h ns = elim (Option-cases (match_literal w cs)) [
    | inl e ↦ inr (match_word-Among ws cs word (rw (e, match_word) at h) ns)
    | inr (rest, e) ↦ elim (Bool-cases (is_blank u rest)) [
      | inl b ↦
          let same : map lower_code (take (length w) cs) ≡ word =
            some_injective (rw (e, match_word, b) at h) in
          inl (sym same ∙ lower-match_literal w cs rest e (subst NoLongS (sym same) ns))
      | inr b ↦ inr (match_word-Among ws cs word (rw (e, match_word, b) at h) ns)
    ]
  ]

  -- A line of the pattern, with spaces around it.
  abbrev pub line : (pre : List ℕ) (c : ℕ) (mid word post : List ℕ) → List ℕ
  line pre c mid word post = pre ++ ((codes "/agent" ++ ((c ∷ mid) ++ word)) ++ post)

  strip-line :
      KeepsWords
      → (pre : List ℕ) (c : ℕ) (mid : List ℕ) (d : ℕ) (ds post : List ℕ) → AllSpace pre
      → AllSpace post
      → NoSpace (d ∷ ds)
      → rstrip u (lstrip u (line pre c mid (d ∷ ds) post)) ≡ codes "/agent" ++ ((c ∷ mid) ++ d ∷ ds)
  unfolding lstrip
  strip-line k pre c mid d ds post hpre hpost hword =
      let inner = codes "/agent" ++ ((c ∷ mid) ++ d ∷ ds) in
      ap (rstrip u)
        (lstrip-spaces pre (inner ++ post) hpre ∙ lstrip-word slash _ (k slash (ground arith)))
      ∙ rstrip-append inner post hpost
      ∙ rstrip-keep (codes "/agent" ++ (c ∷ mid)) d ds (rstrip-word (d ∷ ds) hword)

  parse-line :
      KeepsWords
      → (pre : List ℕ) (c : ℕ) (mid : List ℕ) (d : ℕ) (ds post : List ℕ) → AllSpace pre
      → AllSpace (c ∷ mid)
      → AllSpace post
      → NoSpace (d ∷ ds)
      → match_word u command_words (d ∷ ds) ≡ some (d ∷ ds)
      → parse_control_command u (line pre c mid (d ∷ ds) post) ≡ some (d ∷ ds)
  unfolding parse_control_command skip_spaces match_literal matches_letter
  parse-line k pre c mid d ds post hpre hmid hpost hword matched =
      rw (strip-line k pre c mid d ds post hpre hpost hword, parse_control_command)
        (rw (hmid.0, lstrip-spaces mid (d ∷ ds) hmid.1, lstrip-word d ds hword.0) matched)

  -- Each of the four commands, printed as a comment with any spaces before, after and in between, is
  -- read back as that command, where no letter, digit or slash counts as a space.
  pub parse_control_command-line :
      KeepsWords
      → (pre : List ℕ) (c : ℕ) (mid word post : List ℕ) → AllSpace pre
      → AllSpace (c ∷ mid)
      → AllSpace post
      → IsCommand word
      → parse_control_command u (line pre c mid word post) ≡ some word
  unfolding match_word match_literal matches_letter lstrip
  parse_control_command-line k pre c mid word post hpre hmid hpost h = elim h [
    | inl e ↦
        at_word _ _ e (NoSpace-of k (codes "pause") (refl, (refl, (refl, (refl, (refl, tt)))))) refl
    | inr (inl e) ↦
        at_word _ _ e
          (NoSpace-of k (codes "resume") (refl, (refl, (refl, (refl, (refl, (refl, tt))))))) refl
    | inr (inr (inl e)) ↦
        at_word _ _ e (NoSpace-of k (codes "retry") (refl, (refl, (refl, (refl, (refl, tt)))))) refl
    | inr (inr (inr (inr none_of))) ↦ absurd none_of
    | inr (inr (inr (inl e))) ↦
        at_word _ _ e
          (NoSpace-of k (codes "cancel") (refl, (refl, (refl, (refl, (refl, (refl, tt))))))) refl
  ]
    where
      at_word :
          (d : ℕ) (ds : List ℕ)
          → word ≡ d ∷ ds
          → NoSpace (d ∷ ds)
          → match_word u command_words (d ∷ ds) ≡ some (d ∷ ds)
          → parse_control_command u (line pre c mid word post) ≡ some word
      at_word d ds e ns matched =
          subst (λ w. parse_control_command u (line pre c mid w post) ≡ some w) (sym e)
            (parse-line k pre c mid d ds post hpre hmid hpost ns matched)

  -- A comment that is read as a command gives one of the four words, unless a letter of it is a long
  -- s, which the pattern takes for the letter s.
  pub parse_control_command-IsCommand :
      (body word : List ℕ)
      → parse_control_command u body ≡ some word
      → NoLongS word
      → IsCommand word
  unfolding parse_control_command
  parse_control_command-IsCommand body word h ns =
      elim (Option-cases (match_literal (codes "/agent") (rstrip u (lstrip u body)))) [
        | inl e ↦ let h' = rw (e, parse_control_command) at h in cc
        | inr (rest, e) ↦ elim (Option-cases (skip_spaces u rest)) [
          | inl f ↦ let h' = rw (e, parse_control_command, f) at h in cc
          | inr (tail, f) ↦
              match_word-Among command_words tail word (rw (e, parse_control_command, f) at h) ns
        ]
      ]
