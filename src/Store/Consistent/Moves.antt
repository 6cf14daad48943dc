-- ===== src/Store/Consistent/Moves.antt =====
-- `transition` and `request_control` of src/symphony/store.py against the invariant.
use openhands_symphony.Base.{
  ℕ, String, Bool, ◌≡◌, refl, none, ◌&&◌, ◌||◌, string_eq, find, Bool-cases, Option-cases, inl, inr,
  if_ind, if◌then◌else◌, All_of_find, any_of_find,
}
use openhands_symphony.Models.{Timestamp, JobState, state_eq, is_active, Job}
use openhands_symphony.Store.Schema.{Db, OnOk, has_id, has_issue}
use openhands_symphony.Store.Transition.{
  TransitionArgs, should_release, apply_transition, write_transition, may_move, transition,
}
use openhands_symphony.Store.Control.{
  EventSearch, Command, is_known, cancel, pause, resume, retry, other_command, control_row,
  drops_lease, resets, write_control, request_control, is_requeueable,
}
use openhands_symphony.Store.Consistent.{Refers, IsConsistent, Then}
use openhands_symphony.Store.Consistent.Edit.{
  KeepsKeys, Refers-update, log_event-IsConsistent, Refers-self, settle-IsConsistent,
}

pub transition-IsConsistent :
    (job_id : String) (new_state : JobState) (args : TransitionArgs) (now : Timestamp) (db : Db)
    → IsConsistent db
    → OnOk Then (transition job_id new_state args now db)
unfolding transition write_transition apply_transition
transition-IsConsistent job_id new_state args now db c =
    elim (Option-cases (find (has_id job_id) db.jobs)) [
      | inl e ↦ rw (e, transition) tt
      | inr (row, e) ↦
          rw (e, transition)
            (if_ind (OnOk Then) (may_move row.state new_state) _ _
              (λ _.
                log_event-IsConsistent job_id now _ _ _
                  (Refers-update keeps (has_id job_id) db.jobs job_id (any_of_find _ _ row e))
                  (settle-IsConsistent job_id _ keeps (should_release new_state args) db (λ j. refl)
                    (λ j. refl) c))
              (λ _. tt))
    ]
  where
    keeps : KeepsKeys (apply_transition new_state args now)
    keeps = record { id = λ j. refl; repository = λ j. refl; issue_number = λ j. refl }

-- Keys and lease columns of a row under a command.
abbrev pub ControlShape : Command → JobState → Job → Job → Type 0
ControlShape command state j j' =
    (j'.id ≡ j.id)
    × (j'.repository ≡ j.repository)
    × (j'.issue_number ≡ j.issue_number)
    × (j'.lease_owner ≡ (if drops_lease command state then none else j.lease_owner))
    × (j'.lease_expires_at ≡ (if drops_lease command state then none else j.lease_expires_at))

pub control_row_shape :
    (command : Command) (state : JobState) (reset : Bool) (now : Timestamp) (j : Job)
    → ControlShape command state j (control_row command state reset now j)
unfolding control_row drops_lease
control_row_shape cancel state reset now j = elim (Bool-cases (is_active state)) [
  | inl e ↦ rw e (refl, refl, refl, refl, refl)
  | inr e ↦ rw e (refl, refl, refl, refl, refl)
]
control_row_shape pause state reset now j = elim (Bool-cases (state_eq state JobState.queued)) [
  | inl e ↦ rw e (refl, refl, refl, refl, refl)
  | inr e ↦ rw e (refl, refl, refl, refl, refl)
]
control_row_shape resume state reset now j =
    if_ind (ControlShape resume state j)
      (is_requeueable state || (state_eq state JobState.queued && reset)) _ _
      (λ _. (refl, refl, refl, refl, refl)) (λ _. (refl, refl, refl, refl, refl))
control_row_shape retry state reset now j =
    if_ind (ControlShape retry state j)
      (is_requeueable state || (state_eq state JobState.queued && reset)) _ _
      (λ _. (refl, refl, refl, refl, refl)) (λ _. (refl, refl, refl, refl, refl))
control_row_shape (other_command text) state reset now j = (refl, refl, refl, refl, refl)

pub request_control-IsConsistent :
    (search_in : EventSearch) (repository : String) (number : ℕ) (command : Command)
    (now : Timestamp) (db : Db)
    → IsConsistent db
    → OnOk Then (request_control search_in repository number command now db)
unfolding request_control write_control
request_control-IsConsistent search_in repository number command now db c =
    elim (Option-cases (find (has_issue repository number) db.jobs)) [
      | inl e ↦ rw (e, request_control) c
      | inr (row, e) ↦
          let there : Refers db.jobs row.id =
            All_of_find (λ j. Refers db.jobs j.id) _ db.jobs row e (Refers-self db.jobs) in
          rw (e, request_control)
            (if_ind (OnOk Then) (is_known command) _ _
              (λ _.
                log_event-IsConsistent row.id now _ _ _
                  (Refers-update (keeps row) (has_id row.id) db.jobs row.id there)
                  (settle-IsConsistent row.id _ (keeps row) (drops_lease command row.state) db
                    (λ j. (shape row j).3) (λ j. (shape row j).4) c))
              (λ _. tt))
    ]
  where
    shape :
        (row j : Job)
        → ControlShape command row.state j
            (control_row command row.state (resets search_in command row db) now j)
    shape row j = control_row_shape command row.state (resets search_in command row db) now j

    keeps :
        (row : Job)
        → KeepsKeys (control_row command row.state (resets search_in command row db) now)
    keeps row = record {
      id = λ j. (shape row j).0;
      repository = λ j. (shape row j).1;
      issue_number = λ j. (shape row j).2;
    }
