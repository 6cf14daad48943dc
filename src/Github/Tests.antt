-- ===== src/Github/Tests.antt =====
-- The theorems on src/symphony/github.py at concrete calls.
use openhands_symphony.Base.{
  ℕ, String, false, not, ◌≡◌, refl, ◌∙◌, some, List, [], ◌∷◌, ◌++◌, ◌||◌, string_eq, nat_eq, select,
  any, All, arith,
}
use openhands_symphony.Models.{JobState}
use openhands_symphony.Intake.{contains, codes}
use openhands_symphony.Store.Control.{resume}
use openhands_symphony.Coordinator.Exec.{Post}
use openhands_symphony.Coordinator.Samples.{running_job}
use openhands_symphony.Github.Api.{LabelEdit, add_label, remove_label}
use openhands_symphony.Github.Samples.{
  issue_row, marked_row, command_row, client, no_calls, additions, edited,
}
use openhands_symphony.Github.Reads.{guard_code_mutation}
use openhands_symphony.Github.Reads.Guarded.{Guarded, guard_code_mutation-Guarded}
use openhands_symphony.Github.Labels.{set_state_labels, set_control_state}
use openhands_symphony.Github.Labels.Effect.{Edits, added, removed, contains-select}
use openhands_symphony.Github.Labels.Exact.{
  Relabeled, ShowsState, DoesCommand, set_state_labels-Relabeled, set_control_state-Relabeled,
}
use openhands_symphony.Github.Comments.{
  issue_number_of, commands_in, paginated, post_agent_result_comment, objects, join_pages,
}
use openhands_symphony.Github.Comments.Once.{Silent, HasMarked, post_agent_result_comment-Silent}
use openhands_symphony.Github.Comments.Trusted.{Trusted, commands_in-Trusted}
use openhands_symphony.Github.Pulls.{replace_section, split_at}
use openhands_symphony.Github.Pulls.Section.{Replaced, replace_section-Replaced}

guard_code_mutation-Guarded_example :
    Post
      (λ live v. Guarded client running_job live)
      (guard_code_mutation client running_job false no_calls)
guard_code_mutation-Guarded_example = guard_code_mutation-Guarded client running_job false no_calls

contains-append :
    (xs ys : List String) (l : String) → contains (xs ++ ys) l ≡ contains xs l || contains ys l
unfolding contains
contains-append [] ys l = refl
contains-append (x ∷ xs) ys l = ground (arith, contains-append xs ys l)

contains-additions : (es : List LabelEdit) (l : String) → contains (additions es) l ≡ added es l
unfolding contains added
contains-additions [] l = refl
contains-additions (add_label k ∷ es) l = ground (arith, contains-additions es l)
contains-additions (remove_label k ∷ es) l = contains-additions es l

edited-Edits : Edits edited
edited-Edits es labels l =
    contains-append (additions es) (select (λ l. not (removed es l)) labels) l
    ∙ ground (arith, contains-additions es l, contains-select (λ l. not (removed es l)) labels l)

set_state_labels-Relabeled_example :
    Post
      (λ a v.
        Relabeled running_job.repository running_job.issue_number [] v.log
          (ShowsState client issue_row edited JobState.running))
      (set_state_labels client running_job JobState.running no_calls)
set_state_labels-Relabeled_example =
    set_state_labels-Relabeled client issue_row edited running_job JobState.running no_calls
      edited-Edits (λ tick. refl)

set_control_state-Relabeled_example :
    Post
      (λ a v. Relabeled "octo/app" 7 [] v.log (DoesCommand client issue_row edited resume))
      (set_control_state client "octo/app" 7 resume no_calls)
set_control_state-Relabeled_example =
    set_control_state-Relabeled client issue_row edited "octo/app" 7 resume no_calls edited-Edits
      (λ tick. refl)

has_marked : HasMarked client running_job.repository running_job.issue_number "bot" "marker"
unfolding paginated objects join_pages any
has_marked v = record { post = refl }

post_agent_result_comment-Silent_example :
    Silent [] (post_agent_result_comment client running_job "marker" "done" no_calls)
post_agent_result_comment-Silent_example =
    post_agent_result_comment-Silent client running_job "marker" "done" no_calls refl has_marked

commands_in-Trusted_example :
    All
      (Trusted client (command_row ∷ marked_row ∷ []))
      (commands_in client (command_row ∷ marked_row ∷ []))
commands_in-Trusted_example = commands_in-Trusted client (command_row ∷ marked_row ∷ [])

abbrev old_body : List ℕ
old_body = codes "## Summary\nx\n## Validation\n\n1/2\n\n## Unresolved risks\nnone"

abbrev new_body : List ℕ
new_body = codes "## Summary\nx\n## Validation\n\n2/2\n\n## Unresolved risks\nnone"

replaced : replace_section old_body (codes "2/2") ≡ some new_body
unfolding replace_section split_at
replaced = refl

replace_section-Replaced_example : Replaced old_body (codes "2/2") new_body
replace_section-Replaced_example = replace_section-Replaced old_body (codes "2/2") new_body replaced

issue_url_of_seven : issue_number_of (codes "https://api.github.com/repos/o/a/issues/73") ≡ some 73
unfolding issue_number_of any
issue_url_of_seven = refl
