-- ===== src/Github/Samples.antt =====
-- A concrete client for the tests of the models of src/symphony/github.py.
use openhands_symphony.Base.{
  String, true, false, none, some, List, [], ◌∷◌, ◌++◌, ◌==◌, string_eq, nat_eq, select, not,
}
use openhands_symphony.Models.{exited}
use openhands_symphony.Store.Samples.{hashing}
use openhands_symphony.Coordinator.Exec.{returned}
use openhands_symphony.Github.Api.{
  IssueRow, CommentRow, Api, Client, Calls, LabelEdit, add_label, remove_label,
}
use openhands_symphony.Github.Labels.Effect.{removed}

abbrev pub issue_row : IssueRow
issue_row = record {
  is_pull_request = false;
  number = 7;
  title = some "Fix the parser";
  body = none;
  state = some "open";
  labels = "bug" ∷ "agent:queued" ∷ "agent:ready" ∷ [];
  updated_at = none;
}

abbrev pub marked_row : CommentRow
marked_row = record {
  id = some 5;
  login = some "bot";
  body = some "marker";
  author_association = some "OWNER";
  issue_url = some "issues/7";
}

abbrev pub command_row : CommentRow
command_row = record marked_row { body = some "/agent pause" }

abbrev api : Api
api = record {
  issue = λ repository n tick. returned issue_row;
  repository = λ repository tick. returned (record { private = true; default_branch = none });
  ready_issues = λ repository tick. returned (7 ∷ []);
  open_prs = λ repository branch tick. returned [];
  branch_ref = λ repository branch tick. exited 1;
  recent_comments = λ repository n tick. returned [];
  issue_comments = λ repository n tick. returned (some (some (some marked_row ∷ []) ∷ []));
  repository_comments = λ repository tick. returned (some (some (some command_row ∷ []) ∷ []));
  comment = λ repository id tick. returned marked_row;
  user_login = λ tick. returned (some "bot");
  pr_view = λ repository n tick. returned (record { body = none; head = none; state = none });
  repository_labels = λ repository tick. returned (some []);
  run = λ call tick. returned 5;
}

abbrev pub client : Client
client = record {
  allowlist = "octo/app" ∷ [];
  private_only = true;
  configured_bot_login = "bot";
  api = api;
  hashing = hashing;
  unicode = record { is_space = λ c. c == 32; nfkd = λ cs. cs };
  lower = λ text. text;
  upper = λ text. text;
  mentions = λ text whole. text == whole;
  starts_with = λ prefix whole. true;
  ends_with = λ suffix whole. true;
  strip = λ text. text;
  append = λ a b. b;
  encode = λ cs. "pause";
}

abbrev pub no_calls : Calls
no_calls = record { tick = 0; resolved_bot_login = none; log = [] }

abbrev pub additions : List LabelEdit → List String
additions [] = []
additions (add_label l ∷ es) = l ∷ additions es
additions (remove_label l ∷ es) = additions es

-- The edits as `gh issue edit` makes them.
abbrev pub edited : List LabelEdit → List String → List String
edited es labels = additions es ++ select (λ l. not (removed es l)) labels
