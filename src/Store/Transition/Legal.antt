-- ===== src/Store/Transition/Legal.antt =====
-- On `transition` of src/symphony/store.py.
use openhands_symphony.Base.{
  String, true, false, ◌≡◌, ◌≢◌, refl, some, List, arith, eq_iff, find, any, Option-cases, inl, inr,
  if_ind, ◌==◌, string_eq, find-update_where, find-update_where_other, any-delete_where_self,
  update_where,
}
use openhands_symphony.Models.{Timestamp, JobState, state_eq, Job}
use openhands_symphony.Store.Schema.{
  Db, ok, err, invalid_transition, OnOk, OnOk-elim, has_id, holds,
}
use openhands_symphony.Store.Transition.{
  TransitionArgs, should_release, apply_transition, write_transition, may_move, allowed, transition,
}

-- What a successful call promises.
pub record Moved (job_id : String) (new_state : JobState) (args : TransitionArgs) (db : Db)
    (r : Job × Db) : Type 0 where
  pub from : Job
  pub was : find (has_id job_id) db.jobs ≡ some from
  pub legal : may_move from.state new_state ≡ true
  pub stored : find (has_id job_id) r.1.jobs ≡ some r.0
  pub state : r.0.state ≡ new_state
  pub others :
      (k : String) → (k == job_id) ≡ false → find (has_id k) r.1.jobs ≡ find (has_id k) db.jobs
  pub released : should_release new_state args ≡ true → any (holds job_id) r.1.leases ≡ false

pub find_other :
    (job_id k : String) (f : Job → Job) (jobs : List Job)
    → ((j : Job) → (f j).id ≡ j.id)
    → (k == job_id) ≡ false
    → find (has_id k) (update_where (has_id job_id) f jobs) ≡ find (has_id k) jobs
find_other job_id k f jobs keeps other =
    find-update_where_other (has_id k) (has_id job_id) f jobs (λ j _. rw (keeps j))
      (λ j h. ground (arith, eq_iff j.id k, eq_iff j.id job_id, eq_iff k job_id))

moved_lem :
    (job_id : String) (new_state : JobState) (args : TransitionArgs) (now : Timestamp) (db : Db)
    (row : Job)
    → find (has_id job_id) db.jobs ≡ some row
    → may_move row.state new_state ≡ true
    → Moved job_id new_state args db (
      apply_transition new_state args now row,
      write_transition job_id row.state new_state args now db,
    )
unfolding write_transition apply_transition
moved_lem job_id new_state args now db row e legal = record {
  from = row;
  was = e;
  legal = legal;
  stored =
      find-update_where (has_id job_id) (apply_transition new_state args now) db.jobs (λ j. refl)
        row e;
  state = refl;
  others = λ k other.
      find_other job_id k (apply_transition new_state args now) db.jobs (λ j. refl) other;
  released = λ h. rw h (any-delete_where_self (holds job_id) db.leases);
}

-- A call that returns moved the job of this id along ALLOWED_TRANSITIONS (or kept its state), stored
-- the row that it returns, changed no other job, and, where it releases, left no lease of the job.
pub transition-Moved :
    (job_id : String) (new_state : JobState) (args : TransitionArgs) (now : Timestamp) (db : Db)
    (r : Job × Db)
    → transition job_id new_state args now db ≡ ok r
    → Moved job_id new_state args db r
unfolding transition
transition-Moved job_id new_state args now db r e =
    OnOk-elim (Moved job_id new_state args db) (transition job_id new_state args now db) r e
      (elim (Option-cases (find (has_id job_id) db.jobs)) [
        | inl miss ↦ rw (miss, transition) tt
        | inr (row, hit) ↦
            rw (hit, transition)
              (if_ind (OnOk (Moved job_id new_state args db)) (may_move row.state new_state) _ _
                (moved_lem job_id new_state args now db row hit) (λ _. tt))
      ])

-- A job that is done can only be moved to done: every other target is refused with an error.
pub transition_done :
    (job_id : String) (new_state : JobState) (args : TransitionArgs) (now : Timestamp) (db : Db)
    (row : Job)
    → find (has_id job_id) db.jobs ≡ some row
    → row.state ≡ JobState.done
    → new_state ≢ JobState.done
    → transition job_id new_state args now db ≡ err (invalid_transition JobState.done new_state)
unfolding transition may_move state_eq allowed
transition_done job_id JobState.done args now db row e d ne = absurd (ne refl)
transition_done job_id _ args now db row e d ne = rw (e, transition, d)
