-- ===== src/Webhook.antt =====
-- src/symphony/webhook.py: the endpoint for GitHub's deliveries. The server around it, HMAC and JSON
-- are outside the model.
pub mod Refusal
pub mod Tests
use openhands_symphony.Base.{
  ℕ, zero, suc, String, Bool, true, false, not, Option, none, some, List, [], ◌∷◌, ◌&&◌, ◌||◌, ◌==◌,
  string_eq, nat_eq, if◌then◌else◌,
}
use openhands_symphony.Models.{IssueSnapshot, Job}
use openhands_symphony.Intake.{codes, contains}
use openhands_symphony.Intake.Control.{parse_control_command}
use openhands_symphony.Store.Log.{record_delivery}
use openhands_symphony.Store.Control.{Command, cancel, pause, resume, retry, other_command}
use openhands_symphony.Coordinator.Exec.{
  Exec, Failure, intake_error, Outcome, returned, raised, pure, ◌>>=◌, ◌>>◌, ask, commit_total,
  try_except,
}
use openhands_symphony.Coordinator.Host.{Host}
use openhands_symphony.Coordinator.Intake.{enqueue}
use openhands_symphony.Coordinator.Command.{apply_control_comment}
use openhands_symphony.Scheduler.{Scheduler, tick}

pub record CommentPayload : Type 0 where
  pub id : Option ℕ
  pub body : Option String
  pub author_association : Option String

-- What the handler reads of the JSON body.
pub record Payload : Type 0 where
  pub full_name : Option String
  pub number : Option ℕ
  pub action : Option String
  pub comment : Option CommentPayload

-- The three headers, which are empty if they are missing, and the body.
pub record Request : Type 0 where
  pub event : String
  pub delivery : String
  pub signature : String
  pub body : String

-- `refused` is an HTTPException, by its status; the others are the answers with `accepted`.
pub data Response : Type 0 where
  refused : (status : ℕ) → (detail : String) → Response
  duplicate : Response
  ignored : (reason : String) → Response
  enqueued : (created : Bool) → (job_id : String) → Response
  ineligible : (reason : String) → Response
  commanded : Command → (duplicate_command : Bool) → (job_id : Option String) → Response

-- What the endpoint uses of the outside: the secret, if its file is there, the expected signature, the
-- digest of a body, `json.loads` (none is its error; a body that is no object, which ends in status
-- 500, is outside the model), the text of a command, `str.upper`, and the clock of the scheduler.
pub record Endpoint : Type 0 where
  pub secret : Option String
  pub sign : (secret body : String) → String
  pub digest : (body : String) → String
  pub loads : (body : String) → Option Payload
  pub upper : String → String
  pub command_of : List ℕ → Command
  pub done : String → Bool
  pub now : ℕ

-- `_issue_identity`: an empty name and a number 0 are none.
unfoldable pub issue_identity : Payload → Option String × Option ℕ
issue_identity p = (
  elim p.full_name [ none ↦ none | some name ↦ if name == "" then none else some name ],
  elim p.number [ none ↦ none | some zero ↦ none | some (suc n) ↦ some (suc n) ],
)

abbrev pub routed_actions : List String
routed_actions = "labeled" ∷ "unlabeled" ∷ "edited" ∷ "opened" ∷ "reopened" ∷ "closed" ∷ []

abbrev pub trusted : List String
trusted = "OWNER" ∷ "MEMBER" ∷ "COLLABORATOR" ∷ []

abbrev text_of : Option String → String
text_of none = ""
text_of (some t) = t

module _ (h : Host) (e : Endpoint) where
  -- The scheduler is ticked at once.
  abbrev pub then_tick : Scheduler → Response → Exec (Response × Scheduler)
  then_tick s answer = do ticked ← tick h e.done false e.now s; pure (answer, ticked.1)

  -- `except IntakeError`
  abbrev pub on_intake_error : Scheduler → Failure → Option (Exec (Response × Scheduler))
  on_intake_error s (intake_error reason) = some (pure (ineligible reason, s))
  on_intake_error s f = none

  unfoldable pub on_issue : Scheduler → (repository : String) → ℕ → Exec (Response × Scheduler)
  on_issue s repository number =
      try_except
        (do
          snapshot ← ask (h.github.get_issue repository number)
          result ← enqueue h snapshot
          then_tick s (enqueued result.1 result.0.id))
        (on_intake_error s)

  abbrev pub job_id_of : Option Job → Option String
  job_id_of none = none
  job_id_of (some job) = some job.id

  unfoldable pub on_command :
      Scheduler → (repository : String) → ℕ → CommentPayload → Command → Exec (Response × Scheduler)
  on_command s repository number comment command = elim comment.id [
    | none ↦ pure (ignored "command comment omitted an id", s)
    | some id ↦ do
      applied ← apply_control_comment h repository number id command
      then_tick s (commanded command (not applied.1) (job_id_of applied.0))
  ]

  unfoldable pub on_comment :
      Scheduler → (repository : String) → ℕ → CommentPayload → Exec (Response × Scheduler)
  unfolding on_command
  on_comment s repository number comment =
      elim (parse_control_command h.unicode (codes (text_of comment.body))) [
        | none ↦ pure (ignored "event/action is not routed", s)
        | some word ↦
            if contains trusted (e.upper (text_of comment.author_association))
            then on_command s repository number comment (e.command_of word)
            else pure (ignored "untrusted command author", s)
      ]

  abbrev no_comment : CommentPayload
  no_comment = record { id = none; body = none; author_association = none }

  unfoldable pub dispatch :
      Scheduler → (event : String) → Payload → String → ℕ → Exec (Response × Scheduler)
  unfolding on_issue on_comment
  dispatch s event payload repository number =
      if event == "issues" && contains routed_actions (text_of payload.action)
      then on_issue s repository number
      else if event == "issue_comment" && text_of payload.action == "created"
      then on_comment s repository number
          (elim payload.comment [ none ↦ no_comment | some comment ↦ comment ])
      else pure (ignored "event/action is not routed", s)

  -- The delivery is recorded before it is looked at.
  unfoldable pub on_payload : Scheduler → Request → Payload → Exec (Response × Scheduler)
  unfolding issue_identity dispatch
  on_payload s r payload = do
    let identity = issue_identity payload
    inserted ← commit_total h.clock (λ now db.
        record_delivery r.delivery r.event (e.digest r.body) identity.0 identity.1 now db)
    if not inserted then pure (duplicate, s) else elim identity.0 [
      | none ↦ pure (ignored "event has no issue", s)
      | some repository ↦ elim identity.1 [
        | none ↦ pure (ignored "event has no issue", s)
        | some number ↦ dispatch s r.event payload repository number
      ]
    ]

  unfoldable pub github_webhook : Scheduler → Request → Exec (Response × Scheduler)
  unfolding on_payload
  github_webhook s r =
      if r.event == "" || r.delivery == ""
      then pure (refused 400 "missing GitHub event headers", s)
      else elim e.secret [
        | none ↦ pure (refused 503 "webhook secret is not configured", s)
        | some secret ↦
            if not (e.sign secret r.body == r.signature)
            then pure (refused 401 "invalid webhook signature", s)
            else elim (e.loads r.body) [
              | none ↦ pure (refused 400 "invalid JSON", s)
              | some payload ↦ on_payload s r payload
            ]
      ]
