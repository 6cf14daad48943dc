-- ===== src/Intake/Tests.antt =====
-- The theorems on src/symphony/intake.py at concrete labels and titles.
use openhands_symphony.Base.{
  inl, inr, ◌++◌, ◌↔◌, false, String, true, not, ◌≡◌, ◌≢◌, refl, some, List, [], ◌∷◌, ◌==◌,
  string_eq, nat_eq, arith, any, select, order_by,
}
use openhands_symphony.Store.Samples.{snapshot}
use openhands_symphony.Models.{IssueSnapshot}
use openhands_symphony.Intake.{route, pick_reviewer, Unicode, codes, short_slug}
use openhands_symphony.Intake.Control.{
  parse_control_command, is_valid_repository, has_dots, match_literal, matches_letter, lstrip,
  rstrip, skip_spaces, match_word,
}
use openhands_symphony.Intake.Control.Parse.{
  IsCommand, line, parse_control_command-line, parse_control_command-IsCommand,
}
use openhands_symphony.Intake.Control.Repository.{Parts, is_valid_repository-Parts}
use openhands_symphony.Intake.Route.{Routed, route-Routed, pick_reviewer_other}
use openhands_symphony.Intake.Slug.{IsSlug, short_slug-IsSlug}

abbrev lower : String → String
lower text = text

abbrev reviewed : IssueSnapshot
reviewed = record snapshot { labels = "agent:ready" ∷ "agent:codex" ∷ "review:required" ∷ [] }

abbrev reviewers : List String
reviewers = "codex" ∷ "claude" ∷ []

eligible : (route lower reviewed reviewers).eligible ≡ true
unfolding route order_by select
eligible = refl

route-Routed_example : Routed lower reviewed reviewers (route lower reviewed reviewers)
route-Routed_example = route-Routed lower reviewed reviewers eligible

some_other : any (λ x. not (x == "codex")) reviewers ≡ true
unfolding any
some_other = refl

picked : pick_reviewer "codex" reviewers ≡ some "claude"
unfolding pick_reviewer order_by select
picked = refl

pick_reviewer_other_example : ◌≢◌ {A = String} "claude" "codex"
pick_reviewer_other_example = pick_reviewer_other "codex" reviewers "claude" some_other picked

abbrev ascii : Unicode
ascii = record { is_space = λ c. c == 32; nfkd = λ cs. cs }

short_slug-IsSlug_example : IsSlug 12 (short_slug ascii (codes "Fix: the Parser!") 12)
short_slug-IsSlug_example = short_slug-IsSlug ascii (codes "Fix: the Parser!") 12 (omega arith)

abbrev blanks : Unicode
blanks = record { is_space = λ c. c == 32; nfkd = λ cs. cs }

parse_control_command-line_example :
    parse_control_command blanks (line blanks (codes " ") 32 [] (codes "retry") (codes "  "))
    ≡ some (codes "retry")
parse_control_command-line_example =
    parse_control_command-line blanks (λ c h. ground (arith, h)) (codes " ") 32 [] (codes "retry")
      (codes "  ") (refl, tt) (refl, tt) (refl, (refl, tt)) (inr (inr (inl refl)))

pause_line : parse_control_command blanks (codes "/Agent  PAUSE ") ≡ some (codes "pause")
unfolding parse_control_command match_literal matches_letter lstrip rstrip skip_spaces match_word
pause_line = refl

-- A long s is taken for an s, and what is read is none of the four commands.
long_s_line :
    parse_control_command blanks (codes "/agent re" ++ 383 ∷ codes "ume")
    ≡ some (codes "re" ++ 383 ∷ codes "ume")
unfolding parse_control_command match_literal matches_letter lstrip rstrip skip_spaces match_word
long_s_line = refl

parse_control_command-IsCommand_example : IsCommand (codes "pause")
parse_control_command-IsCommand_example =
    parse_control_command-IsCommand blanks (codes "/Agent  PAUSE ") (codes "pause") pause_line
      (refl, (refl, (refl, (refl, (refl, tt)))))

is_valid_repository-Parts_example :
    (is_valid_repository (codes "octo/app") ≡ true)
    ↔ (Parts false (codes "octo/app") × (has_dots (codes "octo/app") ≡ false))
is_valid_repository-Parts_example = is_valid_repository-Parts (codes "octo/app")
