-- ===== src/Intake/Control.antt =====
-- The commands of issue comments and the names of repositories (src/symphony/intake.py), on code
-- points.
pub mod Parse
pub mod Repository
use openhands_symphony.Base.{
  ℕ, zero, suc, Bool, true, false, not, Option, none, some, List, [], ◌∷◌, ◌&&◌, ◌||◌, ◌==◌, nat_eq,
  leb, if◌then◌else◌, map, length,
}
use openhands_symphony.Intake.{Unicode, lower_code, codes, take}

-- `CONTROL_PATTERN` ignores case, and with Unicode a long s is a case of the letter s.
abbrev pub long_s : ℕ
long_s = 383

unfoldable pub matches_letter : (letter : ℕ) → ℕ → Bool
matches_letter letter c = lower_code c == letter || (letter == b's' && c == long_s)

-- The text behind a literal of the pattern.
unfoldable pub match_literal : (literal : List ℕ) → List ℕ → Option (List ℕ)
unfolding matches_letter
match_literal [] cs = some cs
match_literal (letter ∷ letters) [] = none
match_literal (letter ∷ letters) (c ∷ cs) =
    let rest = match_literal letters cs in if matches_letter letter c then rest else none

abbrev pub command_words : List (List ℕ)
command_words = codes "pause" ∷ codes "resume" ∷ codes "retry" ∷ codes "cancel" ∷ []

abbrev pub slash : ℕ
slash = b'/'

abbrev pub dot : ℕ
dot = b'.'

module _ (u : Unicode) where
  unfoldable pub lstrip : List ℕ → List ℕ
  lstrip [] = []
  lstrip (c ∷ cs) = let rest = lstrip cs in if u.is_space c then rest else c ∷ cs

  unfoldable pub rstrip : List ℕ → List ℕ
  rstrip [] = []
  rstrip (c ∷ cs) = elim (rstrip cs) [
    | [] ↦ if u.is_space c then [] else c ∷ []
    | d ∷ ds ↦ c ∷ d ∷ ds
  ]

  -- `\s+`, which takes all the spaces: no letter that may follow is one.
  unfoldable pub skip_spaces : List ℕ → Option (List ℕ)
  unfolding lstrip
  skip_spaces [] = none
  skip_spaces (c ∷ cs) = if u.is_space c then some (lstrip cs) else none

  -- `\s*$`
  abbrev pub is_blank : List ℕ → Bool
  is_blank cs = elim (lstrip cs) [ [] ↦ true | _ ∷ _ ↦ false ]

  -- `(pause|resume|retry|cancel)\s*$`, with `group(1).lower()`
  unfoldable pub match_word : (words : List (List ℕ)) → List ℕ → Option (List ℕ)
  unfolding match_literal lstrip
  match_word [] cs = none
  match_word (word ∷ words) cs =
      let others = match_word words cs in
      elim (match_literal word cs) [
        | none ↦ others
        | some rest ↦
            if is_blank rest then some (map lower_code (take (length word) cs)) else others
      ]

  unfoldable pub parse_control_command : (body : List ℕ) → Option (List ℕ)
  unfolding lstrip rstrip match_literal skip_spaces match_word
  parse_control_command body = elim (match_literal (codes "/agent") (rstrip (lstrip body))) [
    | none ↦ none
    | some rest ↦ elim (skip_spaces rest) [
      | none ↦ none
      | some tail ↦ match_word command_words tail
    ]
  ]

-- `[A-Za-z0-9_.-]`
unfoldable pub is_name_char : ℕ → Bool
is_name_char c =
    (leb b'A' c && leb c b'Z')
    || (leb b'a' c && leb c b'z')
    || (leb b'0' c && leb c b'9')
    || c == b'_'
    || c == dot
    || c == b'-'

-- `[A-Za-z0-9_.-]+` to the end of the text; the flag says that a character was there.
unfoldable pub is_name : (started : Bool) → List ℕ → Bool
unfolding is_name_char
is_name started [] = started
is_name started (c ∷ cs) = let rest = is_name true cs in is_name_char c && rest

-- `REPOSITORY_PATTERN`: no character of a name is the slash between the two.
unfoldable pub is_repository : (started : Bool) → List ℕ → Bool
unfolding is_name is_name_char
is_repository started [] = false
is_repository started (c ∷ cs) =
    let name = is_name false cs in
    let rest = is_repository true cs in
    if c == slash then started && name else is_name_char c && rest

-- `".." in repository`
unfoldable pub has_dots : List ℕ → Bool
has_dots [] = false
has_dots (c ∷ []) = false
has_dots (c ∷ d ∷ cs) = let rest = has_dots (d ∷ cs) in (c == dot && d == dot) || rest

-- `validate_repository_name`: false is the ValueError.
unfoldable pub is_valid_repository : List ℕ → Bool
unfolding is_repository has_dots
is_valid_repository repository = is_repository false repository && not (has_dots repository)
