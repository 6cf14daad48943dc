-- ===== src/Github/Pulls.antt =====
-- Pull requests and reviews (src/symphony/github.py).
pub mod Section
use openhands_symphony.Base.{
  ℕ, zero, suc, String, Bool, true, false, not, Option, none, some, List, [], ◌∷◌, ◌++◌, ◌&&◌, ◌||◌,
  ◌==◌, string_eq, nat_eq, if◌then◌else◌,
}
use openhands_symphony.Models.{Job, content_hash}
use openhands_symphony.Intake.{codes}
use openhands_symphony.Coordinator.Exec.{
  unexpected, github_error, stale_issue, pure, raise, ◌>>=◌, ◌>>◌,
}
use openhands_symphony.Github.Api.{
  PullRequest, PullView, create_pr, edit_pr, label_pr, edit_pr_body, review_pr, Client, Gh, fetch,
  change,
}
use openhands_symphony.Github.Reads.{
  text_or, check_allowed, live_control_guard, guard_code_mutation, find_open_pr,
}

module _ (c : Client) where
  -- The issue is looked at again between the creation and the label.
  unfoldable pub label_created : Job → (label : String) → PullRequest → Gh PullRequest
  label_created job label pr = do
    live ← live_control_guard c job
    if content_hash c.hashing live == job.content_hash
        then (do change c (label_pr job.repository pr.number label); pure pr)
        else raise (stale_issue "issue title or body changed before PR labeling")

  unfoldable pub create_new_pr : Job → (title body label : String) → Gh PullRequest
  unfolding label_created
  create_new_pr job title body label = do
    change c (create_pr job.repository job.branch title body)
    rows ← fetch (c.api.open_prs job.repository job.branch)
    elim rows [
      | [] ↦ raise (github_error "draft PR creation returned no discoverable PR")
      | row ∷ _ ↦ label_created job label row
    ]

  -- An open pull request on the branch is edited, not made again.
  unfoldable pub create_draft_pr : Job → (title body label : String) → Gh PullRequest
  unfolding create_new_pr
  create_draft_pr job title body label = do
    guard_code_mutation c job true
    existing ← find_open_pr c job.repository job.branch
    elim existing [
      | some pr ↦ (do change c (edit_pr job.repository pr.number title body label); pure pr)
      | none ↦ create_new_pr job title body label
    ]

  -- `{"approve": ..., ...}.get(event)`
  unfoldable pub review_flag : String → Option String
  review_flag event =
      if event == "approve"
      then some "--approve"
      else if event == "request-changes"
      then some "--request-changes"
      else if event == "comment"
      then some "--comment"
      else none

  unfoldable pub post_review :
      (repository : String) → (pr_number : ℕ) → (body event : String) → Gh (Unit {0})
  unfolding review_flag
  post_review repository pr_number body event = do
    check_allowed c repository
    elim (review_flag event) [
      | none ↦ raise (github_error (c.append "invalid review event: " event))
      | some flag ↦ (do change c (review_pr repository pr_number flag body); pure tt)
    ]

-- Texts with sections, as code points: `body.find(needle)` and `body.find(needle, start)`.
abbrev pub starts_with : (prefix cs : List ℕ) → Bool
starts_with [] cs = true
starts_with (p ∷ ps) [] = false
starts_with (p ∷ ps) (c ∷ cs) = p == c && starts_with ps cs

-- The text before the first place of the needle, and the text from there.
unfoldable pub split_at : (needle : List ℕ) → List ℕ → Option (List ℕ × List ℕ)
split_at needle [] = if starts_with needle [] then some ([], []) else none
split_at needle (c ∷ cs) =
    let later = split_at needle cs in
    if starts_with needle (c ∷ cs)
    then some ([], c ∷ cs)
    else elim later [ none ↦ none | some (before, rest) ↦ some (c ∷ before, rest) ]

abbrev pub section_head : List ℕ
section_head = codes "## Validation\n"

abbrev pub section_end : List ℕ
section_end = codes "\n## Unresolved risks"

-- The new section: the head, the text, and a line break after each.
abbrev pub section_of : (validation : List ℕ) → List ℕ
section_of validation = codes "## Validation\n\n" ++ (validation ++ codes "\n")

-- The end is looked for from the second character of the section on.
unfoldable pub replace_section : (body validation : List ℕ) → Option (List ℕ)
unfolding split_at
replace_section body validation = elim (split_at section_head body) [
  | none ↦ none
  | some (before, []) ↦ none
  | some (before, c ∷ tail) ↦ elim (split_at section_end tail) [
    | none ↦ none
    | some (old, after) ↦ some (before ++ (section_of validation ++ after))
  ]
]

module _ (c : Client) where
  abbrev pub is_on_branch : Job → PullView → Bool
  is_on_branch job view =
      c.upper (text_or view.state "") == "OPEN" && text_or view.head "" == job.branch

  unfoldable pub update_pr_validation : Job → (validation : String) → Gh (Unit {0})
  unfolding replace_section
  update_pr_validation job validation = elim job.pr_number [
    | none ↦ raise (github_error "cannot update validation evidence before a PR exists")
    | some zero ↦ raise (github_error "cannot update validation evidence before a PR exists")
    | some (suc n) ↦ do
      view ← fetch (c.api.pr_view job.repository (suc n))
      if not (is_on_branch job view)
          then raise (stale_issue "implementation PR is no longer open on the generated branch")
          else elim (replace_section (codes (text_or view.body "")) (codes validation)) [
            | none ↦ raise (github_error "generated PR body is missing its validation section")
            | some updated ↦ (do
              guard_code_mutation c job true
              change c (edit_pr_body job.repository (suc n) (c.encode updated))
              pure tt)
          ]
  ]
