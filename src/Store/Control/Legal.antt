-- ===== src/Store/Control/Legal.antt =====
-- The state machine of src/symphony/store.py under the operator's commands.
use openhands_symphony.Base.{
  ap, sym, ◌∙◌, ℕ, String, Bool, true, false, ◌≡◌, refl, Option, some, ◌⊎◌, inl, inr, arith, find,
  if_ind, eq_refl, find-update_where_hit,
}
use openhands_symphony.Models.{Timestamp, JobState, state_eq, is_active, Job}
use openhands_symphony.Store.Schema.{Db, ok, OnOk, OnOk-elim, has_id, has_issue}
use openhands_symphony.Store.Transition.{allowed, may_move}
use openhands_symphony.Store.Consistent.Moves.{control_row_shape}
use openhands_symphony.Store.Control.{
  EventSearch, Command, cancel, pause, resume, retry, other_command, is_known, write_control,
  control_row, is_requeueable, resets, request_control,
}

-- The one way off the table: `cancel` of a job that is done.
abbrev pub OnTable : Command → JobState → JobState → Type 0
OnTable command s s' =
    (may_move s s' ≡ true) ⊎ ((command ≡ cancel) × (s ≡ JobState.done) × (s' ≡ JobState.canceled))

control_row-OnTable :
    (command : Command) (s : JobState) (reset : Bool) (now : Timestamp) (j : Job)
    → j.state ≡ s
    → OnTable command s (control_row command s reset now j).state
unfolding control_row may_move allowed state_eq is_active
control_row-OnTable cancel JobState.queued reset now j e = inl (ground arith)
control_row-OnTable cancel JobState.done reset now j e = inr (refl, refl, refl)
control_row-OnTable c s reset now j e = inl (ground arith)

-- What each command leaves in the row: `cancel` and `pause` leave their flag, and a requeued job
-- has no flag against it.
abbrev pub Flagged : Command → JobState → Job → Type 0
Flagged cancel s j = j.cancel_requested ≡ true
Flagged pause s j = j.pause_requested ≡ true
Flagged resume s j =
    is_requeueable s ≡ true
    → (j.state ≡ JobState.queued) × (j.cancel_requested ≡ false) × (j.pause_requested ≡ false)
Flagged retry s j =
    is_requeueable s ≡ true
    → (j.state ≡ JobState.queued) × (j.cancel_requested ≡ false) × (j.pause_requested ≡ false)
Flagged (other_command text) s j = ⊥

control_row-Flagged :
    (command : Command) (s : JobState) (reset : Bool) (now : Timestamp) (j : Job)
    → is_known command ≡ true
    → Flagged command s (control_row command s reset now j)
unfolding control_row is_known
control_row-Flagged cancel s reset now j known = ground arith
control_row-Flagged pause s reset now j known = ground arith
control_row-Flagged resume s reset now j known = λ h. ground arith
control_row-Flagged retry s reset now j known = λ h. ground arith
control_row-Flagged (other_command text) s reset now j known = cc

pub record Controlled (repository : String) (number : ℕ) (command : Command) (db : Db)
    (r : Option Job × Db) : Type 0 where
  pub from : Job
  pub to : Job
  pub was : find (has_issue repository number) db.jobs ≡ some from
  pub result : r.0 ≡ some to
  pub stored : find (has_issue repository number) r.1.jobs ≡ some to
  pub on_table : OnTable command from.state to.state
  pub flagged : Flagged command from.state to

module _ (search_in : EventSearch) (repository : String) (number : ℕ) (command : Command)
    (now : Timestamp) (db : Db) where
  controlled :
      (row : Job)
      → find (has_issue repository number) db.jobs ≡ some row
      → is_known command ≡ true
      → Controlled repository number command db (
        some (control_row command row.state (resets search_in command row db) now row),
        write_control search_in command row now db,
      )
  unfolding write_control
  controlled row e known =
      let reset = resets search_in command row db in
      let f = control_row command row.state reset now in
      record {
        from = row;
        to = f row;
        was = e;
        result = refl;
        stored =
            find-update_where_hit (has_issue repository number) (has_id row.id) f db.jobs
              (λ j.
                let shape = control_row_shape command row.state reset now j in
                rw (shape.1, shape.2))
              row e (eq_refl row.id);
        on_table = control_row-OnTable command row.state reset now row refl;
        flagged = control_row-Flagged command row.state reset now row known;
      }

  -- A command on an issue that has a job, if it returns, moves the job along ALLOWED_TRANSITIONS or
  -- keeps its state, with one exception, `cancel` of a job that is done; the row it returns is the
  -- one stored, and carries the flags of the command.
  pub request_control-Controlled :
      (row : Job)
      → find (has_issue repository number) db.jobs ≡ some row
      → (r : Option Job × Db) → request_control search_in repository number command now db ≡ ok r
      → Controlled repository number command db r
  unfolding request_control
  request_control-Controlled row e r h =
      OnOk-elim (Controlled repository number command db)
        (request_control search_in repository number command now db) r h
        (rw (e, request_control)
          (if_ind (OnOk (Controlled repository number command db)) (is_known command) _ _
            (controlled row e) (λ _. tt)))

same_row : {a b : Job} → some a ≡ some b → a ≡ b
same_row h = cc

module _ (search_in : EventSearch) (repository : String) (number : ℕ) where
  -- The value and the database of a command that is known, on an issue with a job.
  abbrev done_by : Command → Timestamp → Db → Job → Option Job × Db
  done_by command now db row = (
    some (control_row command row.state (resets search_in command row db) now row),
    write_control search_in command row now db,
  )

  request_control_returns :
      (command : Command) (now : Timestamp) (db : Db) (row : Job)
      → find (has_issue repository number) db.jobs ≡ some row
      → is_known command ≡ true
      → request_control search_in repository number command now db ≡ ok (done_by command now db row)
  unfolding request_control
  request_control_returns command now db row e known = rw (e, request_control, known) refl

  -- The job of the issue is stored in the state, and the call returned it.
  abbrev pub Stored : JobState → Option Job × Db → Type 0
  Stored state r =
      (to : Job) × (r.0 ≡ some to)
      × (find (has_issue repository number) r.1.jobs ≡ some to)
      × (to.state ≡ state)

  done_by-Stored :
      (command : Command) (now : Timestamp) (db : Db) (row : Job) (state : JobState)
      → find (has_issue repository number) db.jobs ≡ some row
      → is_known command ≡ true
      → (control_row command row.state (resets search_in command row db) now row).state ≡ state
      → Stored state (done_by command now db row)
  done_by-Stored command now db row state e known moved =
      let c = controlled search_in repository number command now db row e known in
      (c.to, c.result, c.stored, ap (λ j. j.state) (sym (same_row c.result)) ∙ moved)

  -- The operator's cancel takes a job that is done to canceled, and stores it so, although
  -- ALLOWED_TRANSITIONS leaves no way out of done; a resume after it queues the finished job again.
  pub done_resumed :
      (now later : Timestamp) (db : Db) (row : Job)
      → find (has_issue repository number) db.jobs ≡ some row
      → row.state ≡ JobState.done
      → (r : Option Job × Db) × (request_control search_in repository number cancel now db ≡ ok r)
        × Stored JobState.canceled r
        × ((r' : Option Job × Db) × (request_control search_in repository number resume later r.1
              ≡ ok r')
            × Stored JobState.queued r')
  unfolding is_known is_requeueable control_row is_active
  done_resumed now later db row e d =
      let canceled = done_by-Stored cancel now db row JobState.canceled e refl (rw d refl) in
      let (to, result, stored, state) = canceled in
      let db' = write_control search_in cancel row now db in
      (
        done_by cancel now db row,
        request_control_returns cancel now db row e refl,
        canceled,
        (
          done_by resume later db' to,
          request_control_returns resume later db' to stored refl,
          done_by-Stored resume later db' to JobState.queued stored refl (rw state refl),
        ),
      )
