-- ===== src/Github/Api.antt =====
-- What src/symphony/github.py works with: the answers of `gh`, which is not part of the repository,
-- and the calls of it that change something.
use openhands_symphony.Base.{ℕ, suc, String, Bool, Option, List, [], ◌∷◌, ◌++◌}
use openhands_symphony.Models.{Hashing, ExitCode}
use openhands_symphony.Intake.{Unicode}
use openhands_symphony.Coordinator.Exec.{Outcome}

-- Absent and null keys are `none`.
pub record IssueRow : Type 0 where
  pub is_pull_request : Bool
  pub number : ℕ
  pub title : Option String
  pub body : Option String
  pub state : Option String
  pub labels : List String
  pub updated_at : Option String

pub record RepositoryRow : Type 0 where
  pub private : Bool
  pub default_branch : Option String

pub record PullRequest : Type 0 where
  pub number : ℕ
  pub url : String
  pub is_draft : Bool
  pub head : String

pub record CommentRow : Type 0 where
  pub id : Option ℕ
  pub login : Option String
  pub body : Option String
  pub author_association : Option String
  pub issue_url : Option String

-- The pages of a paginated answer: `none` stands for what is no list, or no object, where one is due.
abbrev pub Pages : Type 0
Pages = Option (List (Option (List (Option CommentRow))))

-- What `gh pr view` says of the body, the branch and the state.
pub record PullView : Type 0 where
  pub body : Option String
  pub head : Option String
  pub state : Option String

-- One label of a repository, as `gh label list` has it.
pub record LabelRow : Type 0 where
  pub name : Option String
  pub color : Option String
  pub description : Option String

pub data LabelEdit : Type 0 where
  add_label remove_label : String → LabelEdit

-- The calls of `gh` that change something, by the arguments of the command.
pub data Call : Type 0 where
  edit_labels : (repository : String) → (issue_number : ℕ) → List LabelEdit → Call
  patch_comment : (repository : String) → (comment_id : ℕ) → (body : String) → Call
  post_comment : (repository : String) → (issue_number : ℕ) → (body : String) → Call
  create_pr : (repository head title body : String) → Call
  edit_pr : (repository : String) → ℕ → (title body label : String) → Call
  label_pr : (repository : String) → ℕ → (label : String) → Call
  edit_pr_body : (repository : String) → ℕ → (body : String) → Call
  review_pr : (repository : String) → ℕ → (flag body : String) → Call
  create_label : (repository name color description : String) → Call

-- The answers at a tick. `run` makes a change and answers the id of what it made, where the caller
-- reads one.
pub record Api : Type 0 where
  pub issue : (repository : String) → ℕ → ℕ → Outcome IssueRow
  pub repository : String → ℕ → Outcome RepositoryRow
  pub ready_issues : (repository : String) → ℕ → Outcome (List ℕ)
  pub open_prs : (repository branch : String) → ℕ → Outcome (List PullRequest)
  pub branch_ref : (repository branch : String) → ℕ → ExitCode
  pub recent_comments : (repository : String) → ℕ → ℕ → Outcome (List CommentRow)
  pub issue_comments : (repository : String) → ℕ → ℕ → Outcome Pages
  pub repository_comments : (repository : String) → ℕ → Outcome Pages
  pub comment : (repository : String) → ℕ → ℕ → Outcome CommentRow
  pub user_login : ℕ → Outcome (Option String)
  pub pr_view : (repository : String) → ℕ → ℕ → Outcome PullView
  pub repository_labels : (repository : String) → ℕ → Outcome (Option (List (Option LabelRow)))
  pub run : Call → ℕ → Outcome ℕ

-- A `GhCLIBackend`, with what it uses of Python: `lower`, `upper`, the test `in` on texts, `append`,
-- the number at the end of an issue's URL, and the code points of a text as a text.
pub record Client : Type 0 where
  pub allowlist : List String
  pub private_only : Bool
  pub configured_bot_login : String
  pub api : Api
  pub hashing : Hashing
  pub unicode : Unicode
  pub lower : String → String
  pub upper : String → String
  pub mentions : (text whole : String) → Bool
  pub starts_with : (prefix whole : String) → Bool
  pub ends_with : (suffix whole : String) → Bool
  pub strip : String → String
  pub append : String → String → String
  pub encode : List ℕ → String

-- The cached login of the bot, and the calls that were made.
pub record Calls : Type 0 where
  pub tick : ℕ
  pub resolved_bot_login : Option String
  pub log : List Call

abbrev pub Gh {ℓ} : Type ℓ → Type ℓ
Gh A = Calls → Outcome A × Calls

abbrev pub fetch {ℓ} : {A : Type ℓ} → (ℕ → Outcome A) → Gh A
fetch f w = (f w.tick, record w { tick = suc w.tick })

-- A call is made, whether it answers or raises.
abbrev pub change : Client → Call → Gh ℕ
change c call w = (c.api.run call w.tick, record w { tick = suc w.tick; log = w.log ++ call ∷ [] })
