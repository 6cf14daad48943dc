-- ===== src/Github/Labels.antt =====
-- The labels of issues (`set_state_labels`, `set_control_state` and `ensure_contract_labels` of
-- src/symphony/github.py).
pub mod Effect
pub mod Exact
use openhands_symphony.Base.{
  ℕ, suc, String, Bool, true, false, not, Option, none, some, List, [], ◌∷◌, ◌++◌, ◌&&◌, ◌||◌, ◌==◌,
  string_eq, if◌then◌else◌, select, map,
}
use openhands_symphony.Models.{JobState, state_eq, Job}
use openhands_symphony.Intake.{contains}
use openhands_symphony.Store.Control.{Command, cancel, pause, resume, retry, other_command}
use openhands_symphony.Coordinator.Exec.{
  github_error, stale_issue, pure, raise, ◌>>=◌, ◌>>◌, Outcome,
}
use openhands_symphony.Github.Api.{
  LabelRow, LabelEdit, add_label, remove_label, edit_labels, create_label, Client, Gh, fetch,
  change,
}
use openhands_symphony.Github.Reads.{text_or, check_allowed, get_issue, check_live}

-- `SYSTEM_STATE_LABELS`, sorted
abbrev pub system_state_labels : List String
system_state_labels =
    "agent:done" ∷ "agent:failed" ∷ "agent:needs-guidance" ∷ "agent:pr-open" ∷ "agent:queued"
    ∷ "agent:running" ∷ []

unfoldable pub state_label : JobState → String
state_label JobState.queued = "agent:queued"
state_label JobState.running = "agent:running"
state_label JobState.needs_guidance = "agent:needs-guidance"
state_label JobState.pr_open = "agent:pr-open"
state_label JobState.reviewing = "agent:pr-open"
state_label JobState.blocked = "agent:failed"
state_label JobState.failed = "agent:failed"
state_label JobState.canceled = "agent:failed"
state_label JobState.done = "agent:done"

-- `--remove-label` for the sorted `current - {desired}`, and `--add-label` for the one that is missing.
unfoldable pub state_edits : (desired : String) → (labels : List String) → List LabelEdit
unfolding select contains
state_edits desired labels =
    map remove_label (select (λ l. contains labels l && not (l == desired)) system_state_labels)
    ++ (if contains labels desired then [] else add_label desired ∷ [])

-- What the commands ask of the labels of the issue.
unfoldable pub control_edits : Command → (labels : List String) → List LabelEdit
unfolding contains
control_edits pause labels =
    if contains labels "agent:paused" then [] else add_label "agent:paused" ∷ []
control_edits resume labels =
    (if contains labels "agent:paused" then remove_label "agent:paused" ∷ [] else [])
    ++ (if contains labels "agent:ready" then [] else add_label "agent:ready" ∷ [])
control_edits retry labels =
    (if contains labels "agent:paused" then remove_label "agent:paused" ∷ [] else [])
    ++ (if contains labels "agent:ready" then [] else add_label "agent:ready" ∷ [])
control_edits cancel labels =
    if contains labels "agent:ready" then remove_label "agent:ready" ∷ [] else []
control_edits (other_command text) labels = []

module _ (c : Client) where
  -- Without an edit there is no call.
  unfoldable pub apply_edits : (repository : String) → ℕ → List LabelEdit → Gh (Unit {0})
  apply_edits repository n [] = pure tt
  apply_edits repository n (e ∷ es) = do change c (edit_labels repository n (e ∷ es)); pure tt

  unfoldable pub set_state_labels : Job → JobState → Gh (Unit {0})
  unfolding check_live state_edits state_label apply_edits
  set_state_labels job state = do
    check_live c job state
    live ← get_issue c job.repository job.issue_number
    apply_edits job.repository job.issue_number (state_edits (state_label state) live.labels)

  unfoldable pub set_control_state :
      (repository : String) → (issue_number : ℕ) → Command → Gh (Unit {0})
  unfolding control_edits apply_edits
  set_control_state repository issue_number command = do
    check_allowed c repository
    live ← get_issue c repository issue_number
    if c.lower live.state == "open"
        then apply_edits repository issue_number (control_edits command live.labels)
        else raise (stale_issue "issue was closed")

  -- The entry of the dict of the existing labels: the last row of a name counts.
  unfoldable pub lookup_label : List (Option LabelRow) → (name : String) → Option (String × String)
  lookup_label [] name = none
  lookup_label (none ∷ rows) name = lookup_label rows name
  lookup_label (some row ∷ rows) name =
      let later = lookup_label rows name in
      elim later [
        | some found ↦ some found
        | none ↦
            if text_or row.name "" == name
            then some (c.upper (text_or row.color ""), text_or row.description "")
            else none
      ]

  abbrev is_as : (color description : String) → Option (String × String) → Bool
  is_as color description none = false
  is_as color description (some (found_color, found_description)) =
      found_color == c.upper color && found_description == description

  -- The number of the labels that were written: those that were missing or different.
  unfoldable pub ensure_labels :
      (repository : String) → List (Option LabelRow) → List (String × (String × String)) → Gh ℕ
  unfolding lookup_label
  ensure_labels repository rows [] = pure 0
  ensure_labels repository rows ((name, (color, description)) ∷ labels) =
      let rest = ensure_labels repository rows labels in
      if is_as color description (lookup_label rows name) then rest else (do
        change c (create_label repository name color description)
        changed ← rest
        pure (suc changed))

  unfoldable pub ensure_contract_labels :
      (repository : String) → (labels : List (String × (String × String))) → Gh ℕ
  unfolding ensure_labels
  ensure_contract_labels repository labels = do
    check_allowed c repository
    rows ← fetch (c.api.repository_labels repository)
    elim rows [
      | none ↦ raise (github_error "gh returned an invalid label list")
      | some rows ↦ ensure_labels repository rows labels
    ]
