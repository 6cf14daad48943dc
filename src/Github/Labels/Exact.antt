-- ===== src/Github/Labels/Exact.antt =====
-- On `set_state_labels` and `set_control_state` of src/symphony/github.py.
use openhands_symphony.Base.{
  ap, ℕ, suc, String, not, ◌≡◌, refl, sym, List, [], ◌∷◌, ◌++◌, ◌∙◌, ◌==◌, string_eq, if◌then◌else◌,
  if_ind, ltb, order_by, string_ltb, ◌&&◌,
}
use mathlib.Core.List.{append-nil}
use openhands_symphony.Models.{JobState, state_eq, IssueSnapshot, Job}
use openhands_symphony.Intake.{contains, codes}
use openhands_symphony.Intake.Control.{is_valid_repository}
use openhands_symphony.Store.Control.{Command}
use openhands_symphony.Coordinator.Exec.{Outcome, returned, raised, Post, Post-after, Post-weaken}
use openhands_symphony.Github.Api.{
  IssueRow, LabelEdit, Call, edit_labels, Client, Calls, Gh, fetch, change,
}
use openhands_symphony.Github.Reads.{check_allowed, get_issue, live_issue_guard, check_live}
use openhands_symphony.Github.Labels.{
  state_label, state_edits, control_edits, apply_edits, set_state_labels, set_control_state,
}
use openhands_symphony.Github.Labels.Effect.{
  Edits, is_system, state_edits-Exact, contains-order_by, Obeys, control_edits-Obeys,
}

-- The calls for the edits: none if there is nothing to edit.
abbrev pub edit_calls : (repository : String) → ℕ → List LabelEdit → List Call
edit_calls repository n [] = []
edit_calls repository n (e ∷ es) = edit_labels repository n (e ∷ es) ∷ []

-- The issue is answered with the row whenever it is asked for.
abbrev pub Answers : Client → (repository : String) → ℕ → IssueRow → Type 0
Answers c repository n row = (tick : ℕ) → c.api.issue repository n tick ≡ returned row

module _ (c : Client) (repository : String) (n : ℕ) (row : IssueRow) (L : List Call) where
  abbrev Kept : {A : Type 0} → A → Calls → Type 0
  Kept a v = v.log ≡ L

  record IssueRead (live : IssueSnapshot) (v : Calls) : Type 0 where
    pub kept : v.log ≡ L
    pub labels : live.labels ≡ order_by string_ltb row.labels

  answer-Kept : {A : Type 0} (o : Outcome A) (v : Calls) → v.log ≡ L → Post Kept (o, v)
  answer-Kept (returned a) v h = record { post = h }
  answer-Kept (raised f) v h = record { post = tt }

  check_allowed-Kept : (w : Calls) → w.log ≡ L → Post Kept (check_allowed c repository w)
  unfolding check_allowed
  check_allowed-Kept w h =
      if_ind (λ (m : Gh (Unit {0})). Post Kept (m w)) (not (is_valid_repository (codes repository)))
        _ _ (λ e. record { post = tt })
        (λ e.
          if_ind (λ (m : Gh (Unit {0})). Post Kept (m w)) (contains c.allowlist repository) _ _
            (λ e. record { post = h }) (λ e. record { post = tt }))

  get_issue-IssueRead :
      Answers c repository n row
      → (w : Calls) → w.log ≡ L
      → Post IssueRead (get_issue c repository n w)
  unfolding get_issue
  get_issue-IssueRead answers w h =
      Post-after Kept IssueRead (check_allowed c repository w) _ (check_allowed-Kept w h)
        λ a v kept.
          if_ind (λ (m : Gh IssueSnapshot). Post IssueRead (m v)) (ltb n 1) _ _
            (λ e. record { post = tt })
            (λ e. rw (answers v.tick) (
              if_ind (λ (m : Gh IssueSnapshot). Post IssueRead (m (record v { tick = suc v.tick })))
                row.is_pull_request _ _ (λ e. record { post = tt })
                (λ e.
                  Post-after Kept IssueRead
                    (fetch (c.api.repository repository) (record v { tick = suc v.tick })) _
                    (answer-Kept (c.api.repository repository (suc v.tick)) _ kept)
                    λ repo u kept.
                      if_ind (λ (m : Gh IssueSnapshot). Post IssueRead (m u))
                        (c.private_only && not repo.private) _ _ (λ e. record { post = tt })
                        (λ e. record { post = record { kept = kept; labels = refl } }))))

  get_issue-Kept :
      Answers c repository n row → (w : Calls) → w.log ≡ L → Post Kept (get_issue c repository n w)
  get_issue-Kept answers w h =
      Post-weaken IssueRead Kept (get_issue c repository n w) (get_issue-IssueRead answers w h)
        (λ live v r. r.kept)

  apply_edits-Kept :
      (es : List LabelEdit) (w : Calls)
      → w.log ≡ L
      → Post (λ a v. v.log ≡ L ++ edit_calls repository n es) (apply_edits c repository n es w)
  unfolding apply_edits
  apply_edits-Kept [] w h = record { post = h ∙ sym (append-nil L) }
  apply_edits-Kept (e ∷ es) w h =
      Post-after (λ a v. v.log ≡ L ++ edit_calls repository n (e ∷ es))
        (λ a v. v.log ≡ L ++ edit_calls repository n (e ∷ es))
        (change c (edit_labels repository n (e ∷ es)) w) _
        (changed (c.api.run (edit_labels repository n (e ∷ es)) w.tick) _
          (ap (λ l. l ++ edit_labels repository n (e ∷ es) ∷ []) h))
        (λ a v h. record { post = h })
    where
      changed :
          {A : Type 0} (o : Outcome A) (v : Calls)
          → v.log ≡ L ++ edit_calls repository n (e ∷ es)
          → Post (λ a v. v.log ≡ L ++ edit_calls repository n (e ∷ es)) (o, v)
      changed (returned a) v h = record { post = h }
      changed (raised f) v h = record { post = tt }

-- The call sent one edit of the issue at most, after which the labels are as they should be.
pub record Relabeled (repository : String) (n : ℕ) (before after : List Call)
    (IsRight : List LabelEdit → Type 0) : Type 0 where
  pub edits : List LabelEdit
  pub sent : after ≡ before ++ edit_calls repository n edits
  pub right : IsRight edits

module _ (c : Client) (row : IssueRow) (edit : List LabelEdit → List String → List String) where
  -- The labels for states are the one of the state, and the others are those of the issue.
  abbrev pub ShowsState : JobState → List LabelEdit → Type 0
  ShowsState state es =
      (l : String)
      → contains (edit es row.labels) l
        ≡ (if is_system l then state_label state == l else contains row.labels l)

  -- The edits do to the issue's labels what the command asks.
  abbrev pub DoesCommand : Command → List LabelEdit → Type 0
  DoesCommand command es = Obeys command (contains row.labels) (contains (edit es row.labels))

  live_issue_guard-Kept :
      (job : Job) (w : Calls)
      → Answers c job.repository job.issue_number row
      → Post (λ a v. v.log ≡ w.log) (live_issue_guard c job w)
  unfolding live_issue_guard
  live_issue_guard-Kept job w answers =
      Post-after (λ a v. v.log ≡ w.log) (λ a v. v.log ≡ w.log)
        (get_issue c job.repository job.issue_number w) _
        (get_issue-Kept c job.repository job.issue_number row w.log answers w refl)
        λ live v kept.
          if_ind (λ (m : Gh IssueSnapshot). Post (λ a v. v.log ≡ w.log) (m v))
            (c.lower live.state == "open") _ _ (λ e. record { post = kept })
            (λ e. record { post = tt })

  check_live-Kept :
      (job : Job) (state : JobState) (w : Calls)
      → Answers c job.repository job.issue_number row
      → Post (λ a v. v.log ≡ w.log) (check_live c job state w)
  unfolding check_live
  check_live-Kept job state w answers =
      let P = λ (a : Unit {0}) (v : Calls). v.log ≡ w.log in
      if_ind (λ (m : Gh (Unit {0})). Post P (m w)) (state_eq state JobState.done) _ _
        (λ e.
          Post-after (λ a v. v.log ≡ w.log) P (get_issue c job.repository job.issue_number w) _
            (get_issue-Kept c job.repository job.issue_number row w.log answers w refl)
            (λ a v h. record { post = h }))
        (λ e.
          Post-after (λ a v. v.log ≡ w.log) P (live_issue_guard c job w) _
            (live_issue_guard-Kept job w answers) (λ a v h. record { post = h }))

  relabel :
      (repository : String) (n : ℕ) (before : List Call) (IsRight : List LabelEdit → Type 0)
      (plan : List String → List LabelEdit)
      → ((read : List String)
          → ((l : String) → contains read l ≡ contains row.labels l)
          → IsRight (plan read))
      → (live : IssueSnapshot) (v : Calls) → IssueRead c repository n row before live v
      → Post
          (λ a u. Relabeled repository n before u.log IsRight)
          (apply_edits c repository n (plan live.labels) v)
  relabel repository n before IsRight plan right live v read =
      Post-weaken (λ a u. u.log ≡ before ++ edit_calls repository n (plan live.labels)) _
        (apply_edits c repository n (plan live.labels) v)
        (apply_edits-Kept c repository n row before (plan live.labels) v read.kept)
        (λ a u sent. record {
          edits = plan live.labels;
          sent = sent;
          right =
              right live.labels (λ l. rw read.labels (contains-order_by string_ltb row.labels l));
        })

  -- After `set_state_labels` has returned, the issue shows the state of the job by exactly one of the
  -- state labels, and no label of a user is touched; at most one edit is sent, where the issue does
  -- not change meanwhile and `gh issue edit` adds and removes what it is told to.
  pub set_state_labels-Relabeled :
      (job : Job) (state : JobState) (w : Calls)
      → Edits edit
      → Answers c job.repository job.issue_number row
      → Post
          (λ a v. Relabeled job.repository job.issue_number w.log v.log (ShowsState state))
          (set_state_labels c job state w)
  unfolding set_state_labels
  set_state_labels-Relabeled job state w edits answers =
      Post-after (λ a v. v.log ≡ w.log) _ (check_live c job state w) _
        (check_live-Kept job state w answers)
        λ a v kept.
          Post-after (IssueRead c job.repository job.issue_number row w.log) _
            (get_issue c job.repository job.issue_number v) _
            (get_issue-IssueRead c job.repository job.issue_number row w.log answers v kept)
            (relabel job.repository job.issue_number w.log (ShowsState state)
              (state_edits (state_label state))
              (λ read same. state_edits-Exact edit edits state row.labels read same))

  -- After `set_control_state` has returned, a paused issue has the label agent:paused, one that is
  -- resumed or retried has agent:ready and not agent:paused, and one that is canceled has no
  -- agent:ready, under the same conditions.
  pub set_control_state-Relabeled :
      (repository : String) (n : ℕ) (command : Command) (w : Calls)
      → Edits edit
      → Answers c repository n row
      → Post
          (λ a v. Relabeled repository n w.log v.log (DoesCommand command))
          (set_control_state c repository n command w)
  unfolding set_control_state
  set_control_state-Relabeled repository n command w edits answers =
      let P =
        λ (a : Unit {0}) (v : Calls). Relabeled repository n w.log v.log (DoesCommand command) in
      Post-after (λ a v. v.log ≡ w.log) P (check_allowed c repository w) _
        (check_allowed-Kept c repository n row w.log w refl)
        λ a v kept.
          Post-after (IssueRead c repository n row w.log) P (get_issue c repository n v) _
            (get_issue-IssueRead c repository n row w.log answers v kept)
            λ live u read.
              if_ind (λ (m : Gh (Unit {0})). Post P (m u)) (c.lower live.state == "open") _ _
                (λ e.
                  relabel repository n w.log (DoesCommand command) (control_edits command)
                    (λ read same. control_edits-Obeys edit edits row.labels read same command) live
                    u read)
                (λ e. record { post = tt })
