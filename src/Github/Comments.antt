-- ===== src/Github/Comments.antt =====
-- The comments of issues (src/symphony/github.py): the status comment, the comments of agents, and
-- the commands of operators.
pub mod Once
pub mod Trusted
use openhands_symphony.Base.{
  suc, find, any, leb, ◌+◌, ◌-◌, ℕ, String, Bool, true, false, not, Option, none, some, List, [],
  ◌∷◌, ◌++◌, ◌&&◌, ◌||◌, ◌==◌, string_eq, nat_eq, if◌then◌else◌,
}
use Prim.Native.Nat.{◌*◌}
use openhands_symphony.Models.{JobState, state_eq, Job}
use openhands_symphony.Intake.{codes, contains}
use openhands_symphony.Intake.Control.{parse_control_command}
use openhands_symphony.Store.Transition.{get_or}
use openhands_symphony.Store.Control.{Command, cancel, pause, resume, retry, other_command}
use openhands_symphony.Coordinator.Exec.{
  unexpected, github_error, returned, raised, pure, raise, ◌>>=◌, ◌>>◌, Outcome,
}
use openhands_symphony.Github.Api.{
  CommentRow, Pages, patch_comment, post_comment, Client, Calls, Gh, fetch, change,
}
use openhands_symphony.Github.Reads.{text_or, check_allowed, check_live, live_issue_guard}

abbrev pub status_marker : String
status_marker = "<!-- openhands-symphony-status -->"

abbrev pub agent_result_marker_prefix : String
agent_result_marker_prefix = "<!-- openhands-symphony-agent-result:"

abbrev pub trusted_associations : List String
trusted_associations = "OWNER" ∷ "MEMBER" ∷ "COLLABORATOR" ∷ []

-- The rows of a page that are objects.
unfoldable pub objects : List (Option CommentRow) → List CommentRow
objects [] = []
objects (none ∷ rows) = objects rows
objects (some row ∷ rows) = row ∷ objects rows

unfoldable pub join_pages : List (Option (List (Option CommentRow))) → Gh (List CommentRow)
unfolding objects
join_pages [] = pure []
join_pages (none ∷ pages) = raise (github_error "gh returned an invalid comment page")
join_pages (some rows ∷ pages) = do rest ← join_pages pages; pure (objects rows ++ rest)

abbrev pub of_pages : Pages → Gh (List CommentRow)
of_pages none = raise (github_error "gh returned an invalid paginated comment response")
of_pages (some pages) = join_pages pages

unfoldable pub paginated : (ℕ → Outcome Pages) → Gh (List CommentRow)
unfolding join_pages
paginated source = do pages ← fetch source; of_pages pages

abbrev is_slash : ℕ → Bool
is_slash c = c == 47

-- `issue_url.rsplit("/", 1)[-1]`
unfoldable pub last_segment : List ℕ → List ℕ
last_segment [] = []
last_segment (c ∷ cs) =
    let rest = last_segment cs in
    if any is_slash cs then rest else if is_slash c then cs else c ∷ cs

-- `isdigit`, on the ASCII digits
abbrev pub is_digit : ℕ → Bool
is_digit c = leb 48 c && leb c 57

unfoldable pub decimal_value : (read : ℕ) → List ℕ → ℕ
decimal_value read [] = read
decimal_value read (c ∷ cs) = decimal_value (read * 10 + (c - 48)) cs

-- `int(number)`, if `number.isdigit()`, which is false of the empty text.
abbrev number_in : List ℕ → Option ℕ
number_in [] = none
number_in (c ∷ cs) =
    if any (λ x. not (is_digit x)) (c ∷ cs) then none else some (decimal_value 0 (c ∷ cs))

-- The number of the issue at the end of its URL.
unfoldable pub issue_number_of : (issue_url : List ℕ) → Option ℕ
unfolding last_segment decimal_value
issue_number_of issue_url = number_in (last_segment issue_url)

module _ (c : Client) where
  abbrev remember : String → Gh (Unit {0})
  remember login w = (returned tt, record w { resolved_bot_login = some login })

  abbrev asked_login : Gh String
  asked_login = do
    user ← fetch c.api.user_login
    remember (text_or user "")
    if text_or user "" == ""
        then raise (github_error "unable to resolve the authenticated GitHub login")
        else pure (text_or user "")

  -- The login of the configuration, the cached one, or the one that `gh` answers, which is cached
  -- also if it is empty.
  unfoldable pub bot_login : Gh String
  bot_login w =
      if not (c.configured_bot_login == "")
      then (returned c.configured_bot_login, w)
      else elim w.resolved_bot_login [ some login ↦ (returned login, w) | none ↦ asked_login w ]

  -- One comment of the issue by the bot with the marker.
  abbrev pub is_marked : (login marker : String) → CommentRow → Bool
  is_marked login marker row =
      text_or row.login "" == login && c.mentions marker (text_or row.body "")

  abbrev pub id_of : CommentRow → Gh ℕ
  id_of row = elim row.id [ none ↦ raise (unexpected "KeyError") | some id ↦ pure id ]

  -- The login is asked for each comment.
  unfoldable pub first_status_comment : List CommentRow → Gh (Option ℕ)
  unfolding bot_login
  first_status_comment [] = pure none
  first_status_comment (row ∷ rows) = do
    login ← bot_login
    if is_marked login status_marker row
        then (do id ← id_of row; pure (some id))
        else first_status_comment rows

  unfoldable pub find_status_comment : (repository : String) → (issue_number : ℕ) → Gh (Option ℕ)
  unfolding paginated first_status_comment
  find_status_comment repository issue_number = do
    comments ← paginated (c.api.issue_comments repository issue_number)
    first_status_comment comments

  -- `except GitHubError: return False` is for the read of the comment alone.
  unfoldable pub owned_status_comment : (repository : String) → (comment_id : ℕ) → Gh Bool
  unfolding bot_login
  owned_status_comment repository comment_id w = elim (c.api.comment repository comment_id w.tick) [
    | returned row ↦
        (do login ← bot_login; pure (is_marked login status_marker row))
          (record w { tick = suc w.tick })
    | raised (github_error m) ↦ (returned false, record w { tick = suc w.tick })
    | raised f ↦ (raised f, record w { tick = suc w.tick })
  ]

  -- The comment that the job names, if it is the bot's; 0 is no id.
  unfoldable pub known_status_comment : Job → Gh (Option ℕ)
  unfolding owned_status_comment
  known_status_comment job = elim job.status_comment_id [
    | none ↦ pure none
    | some id ↦ if id == 0 then pure none else (do
      owned ← owned_status_comment job.repository id
      pure (if owned then some id else none))
  ]

  abbrev pub or_found : Job → Option ℕ → Gh (Option ℕ)
  or_found job (some id) = pure (some id)
  or_found job none = find_status_comment job.repository job.issue_number

  abbrev pub marked_body : (marker body : String) → String
  marked_body marker body = c.append marker (c.append "\n" body)

  unfoldable pub update_status_comment : Job → (body : String) → Gh ℕ
  unfolding known_status_comment find_status_comment
  update_status_comment job body = do
    check_live c job job.state
    known ← known_status_comment job
    found ← or_found job known
    check_live c job job.state
    elim found [
      | some id ↦ (do
        change c (patch_comment job.repository id (marked_body status_marker body))
        pure id)
      | none ↦
          change c (post_comment job.repository job.issue_number (marked_body status_marker body))
    ]

  abbrev pub post_result : Job → (marker body : String) → Option CommentRow → Gh ℕ
  post_result job marker body (some row) = id_of row
  post_result job marker body none = do
    live_issue_guard c job
    change c (post_comment job.repository job.issue_number (marked_body marker body))

  -- Without an own comment with the marker there is a new one.
  unfoldable pub post_agent_result_comment : Job → (marker body : String) → Gh ℕ
  unfolding paginated bot_login
  post_agent_result_comment job marker body =
      if not (c.starts_with agent_result_marker_prefix marker) || not (c.ends_with " -->" marker)
      then raise (github_error "invalid agent-result marker")
      else (do
        comments ← paginated (c.api.issue_comments job.repository job.issue_number)
        login ← bot_login
        post_result job marker body (find (is_marked login marker) comments))

  -- The comments of people, the oldest first.
  abbrev pub is_service_comment : (body : String) → Bool
  is_service_comment body =
      c.mentions status_marker body
      || c.mentions agent_result_marker_prefix body
      || c.starts_with "/agent" (c.lower (c.strip body))

  unfoldable pub human_comments : List CommentRow → List String
  human_comments [] = []
  human_comments (row ∷ rows) =
      let older = human_comments rows in
      let body = text_or row.body "" in
      if is_service_comment body
      then older
      else older
        ++ (c.append "Comment by " (c.append (text_or row.login "unknown") (c.append ":\n" body)))
          ∷ []

  unfoldable pub recent_issue_comments :
      (repository : String) → (issue_number : ℕ) → Gh (List String)
  unfolding human_comments
  recent_issue_comments repository issue_number = do
    check_allowed c repository
    rows ← fetch (c.api.recent_comments repository issue_number)
    pure (human_comments rows)

  -- The parsed text as one of the commands.
  unfoldable pub command_of : List ℕ → Command
  command_of text =
      let word = c.encode text in
      if word == "pause"
      then pause
      else if word == "resume"
      then resume
      else if word == "retry"
      then retry
      else if word == "cancel"
      then cancel
      else other_command word

  -- The issue, the comment and the command of a comment that is a command of a trusted author.
  unfoldable pub command_in : CommentRow → Option ((ℕ × ℕ) × Command)
  unfolding command_of issue_number_of
  command_in row = elim (parse_control_command c.unicode (codes (text_or row.body ""))) [
    | none ↦ none
    | some word ↦
        if not (contains trusted_associations (c.upper (text_or row.author_association "")))
        then none
        else elim (issue_number_of (codes (text_or row.issue_url ""))) [
          | none ↦ none
          | some number ↦ elim row.id [
            | none ↦ none
            | some id ↦ some ((number, id), command_of word)
          ]
        ]
  ]

  abbrev pub listed : {A : Type 0} → Option A → List A → List A
  listed none rest = rest
  listed (some x) rest = x ∷ rest

  unfoldable pub commands_in : List CommentRow → List ((ℕ × ℕ) × Command)
  unfolding command_in
  commands_in [] = []
  commands_in (row ∷ rows) = listed (command_in row) (commands_in rows)

  unfoldable pub list_control_commands : (repository : String) → Gh (List ((ℕ × ℕ) × Command))
  unfolding commands_in paginated
  list_control_commands repository = do
    check_allowed c repository
    rows ← paginated (c.api.repository_comments repository)
    pure (commands_in rows)
