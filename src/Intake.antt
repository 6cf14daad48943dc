-- ===== src/Intake.antt =====
-- src/symphony/intake.py: routing by labels and branch names. Texts that the code
-- walks are lists of code points; texts that it only compares are strings.
pub mod Route
pub mod Control
pub mod Slug
pub mod Tests
use Prim.Native.Char.{code}
use openhands_symphony.Base.{
  ◌++◌, ℕ, zero, suc, ◌+◌, ◌-◌, String, Bool, true, false, not, Option, none, some, List, [], ◌∷◌,
  ◌++◌, ◌&&◌, ◌||◌, ◌==◌, string_eq, nat_eq, ltb, leb, if◌then◌else◌, any, select, order_by,
  string_ltb, map,
}
use openhands_symphony.Models.{IssueSnapshot}

-- `value in values`
unfoldable pub contains : List String → String → Bool
contains [] v = false
contains (x ∷ xs) v = x == v || contains xs v

abbrev pub implementation_labels : List (String × String)
implementation_labels =
    ("agent:claude", "claude")
    ∷ ("agent:codex", "codex")
    ∷ ("agent:antigravity", "antigravity")
    ∷ []

abbrev pub review_labels : List (String × String)
review_labels =
    ("review:claude", "claude")
    ∷ ("review:codex", "codex")
    ∷ ("review:antigravity", "antigravity")
    ∷ []

-- The `if label in labels` comprehensions over a label table.
unfoldable pub providers_for : List (String × String) → List String → List String
unfolding contains
providers_for [] labels = []
providers_for ((label, provider) ∷ table) labels =
    let rest = providers_for table labels in if contains labels label then provider ∷ rest else rest

pub record RoutingDecision : Type 0 where
  pub eligible : Bool
  pub implementation_provider : Option String
  pub review_required : Bool
  pub review_provider : Option String
  pub reason : String

unfoldable pub refuse : String → RoutingDecision
refuse reason = record {
  eligible = false;
  implementation_provider = none;
  review_required = false;
  review_provider = none;
  reason = reason;
}

unfoldable pub accept_route : String → Bool → Option String → RoutingDecision
accept_route implementation required reviewer = record {
  eligible = true;
  implementation_provider = some implementation;
  review_required = required;
  review_provider = reviewer;
  reason = "";
}

-- `sorted(available - {implementation})`; the set is a list, in which the order does not matter.
unfoldable pub other_reviewers : String → List String → List String
other_reviewers implementation available =
    order_by string_ltb (select (λ r. not (r == implementation)) available)

-- The reviewer where no label names one: another provider, or else the implementer itself.
unfoldable pub pick_reviewer : String → List String → Option String
unfolding other_reviewers contains
pick_reviewer implementation available = elim (other_reviewers implementation available) [
  | r ∷ _ ↦ some r
  | [] ↦ if contains available implementation then some implementation else none
]

-- The review part of `route`, behind the choice of the implementer.
unfoldable pub route_review : String → Bool → List String → List String → RoutingDecision
unfolding refuse accept_route pick_reviewer
route_review implementation required (r ∷ s ∷ more) available =
    refuse "at most one review-provider label is allowed"
route_review implementation required (r ∷ []) available =
    if required
    then accept_route implementation required (some r)
    else refuse "review-provider label requires review:required"
route_review implementation false [] available = accept_route implementation false none
route_review implementation true [] available = elim (pick_reviewer implementation available) [
  | none ↦ refuse "review requested but no review provider is available"
  | some r ↦ accept_route implementation true (some r)
]

unfoldable pub route_implementation : List String → List String → List String → RoutingDecision
unfolding route_review refuse contains providers_for
route_implementation (p ∷ []) labels available =
    route_review p (contains labels "review:required") (providers_for review_labels labels)
      available
route_implementation _ labels available =
    refuse "exactly one implementation-provider label is required"

-- `lower` is Python's `str.lower`. An absent set of reviewers is the empty one.
unfoldable pub route : (lower : String → String) → IssueSnapshot → List String → RoutingDecision
unfolding route_implementation refuse contains providers_for
route lower snapshot available =
    if not (lower snapshot.state == "open")
    then refuse "issue is closed"
    else if contains snapshot.labels "agent:paused"
    then refuse "issue is paused"
    else if contains snapshot.labels "agent:manual-only"
    then refuse "issue is manual-only"
    else if not (contains snapshot.labels "agent:ready")
    then refuse "agent:ready is absent"
    else route_implementation (providers_for implementation_labels snapshot.labels) snapshot.labels
        available

-- What Python's runtime knows about characters: `str.isspace`, and the NFKD normal form.
pub record Unicode : Type 0 where
  pub is_space : ℕ → Bool
  pub nfkd : List ℕ → List ℕ

abbrev pub dash : ℕ
dash = b'-'

abbrev pub is_upper : ℕ → Bool
is_upper c = leb b'A' c && leb c b'Z'

-- `str.lower` on an ASCII character
abbrev pub lower_code : ℕ → ℕ
lower_code c = if is_upper c then c + 32 else c

-- `[a-z0-9]`
abbrev pub is_slug_char : ℕ → Bool
is_slug_char c = (leb b'a' c && leb c b'z') || (leb b'0' c && leb c b'9')

-- `re.sub(r"[^a-z0-9]+", "-", value)`; the flag says that the run has its dash already.
unfoldable pub dash_runs : Bool → List ℕ → List ℕ
dash_runs in_run [] = []
dash_runs in_run (c ∷ cs) =
    let kept = c ∷ dash_runs false cs in
    let again = dash_runs true cs in
    if is_slug_char c then kept else if in_run then again else dash ∷ again

-- `str.lstrip("-")` and `str.rstrip("-")`
unfoldable pub strip_left : List ℕ → List ℕ
strip_left [] = []
strip_left (c ∷ cs) = let rest = strip_left cs in if c == dash then rest else c ∷ cs

unfoldable pub strip_right : List ℕ → List ℕ
strip_right [] = []
strip_right (c ∷ cs) = elim (strip_right cs) [
  | [] ↦ if c == dash then [] else c ∷ []
  | d ∷ ds ↦ c ∷ d ∷ ds
]

abbrev pub take {ℓ} : {A : Type ℓ} → ℕ → List A → List A
take zero xs = []
take (suc n) [] = []
take (suc n) (x ∷ xs) = x ∷ take n xs

abbrev pub work : List ℕ
work = b'w' ∷ b'o' ∷ b'r' ∷ b'k' ∷ []

abbrev pub or_work : List ℕ → List ℕ
or_work [] = work
or_work (c ∷ cs) = c ∷ cs

-- `encode("ascii", "ignore")` drops every other character.
unfoldable pub short_slug : Unicode → List ℕ → ℕ → List ℕ
unfolding dash_runs strip_left strip_right
short_slug u title max_length =
    let ascii = select (λ c. ltb c 128) (u.nfkd title) in
    let value = strip_right (strip_left (dash_runs false (map lower_code ascii))) in
    or_work (strip_right (take max_length value))

-- The code points of a text. `String` has its own `[]` and `∷`.
abbrev pub codes : String → List ℕ
codes String.[] = []
codes (String.◌∷◌ c s) = code c ∷ codes s

-- `none` is the ValueError "issue number must be positive"; `decimal` prints a number.
unfoldable pub branch_name : Unicode → (decimal : ℕ → List ℕ) → ℕ → List ℕ → Option (List ℕ)
unfolding short_slug
branch_name u decimal issue_number title =
    if ltb issue_number 1
    then none
    else some (codes "agent/" ++ (decimal issue_number ++ dash ∷ short_slug u title 48))
