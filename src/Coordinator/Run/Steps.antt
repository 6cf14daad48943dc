-- ===== src/Coordinator/Run/Steps.antt =====
-- List Assignment to `job` and ways out of `_run_claimed` of src/symphony/coordinator.py.
use openhands_symphony.Base.{true, List}
use openhands_symphony.Models.{JobState, Job}
use openhands_symphony.Store.Jobs.{Assignment, update_job}
use openhands_symphony.Store.Transition.{TransitionArgs, transition}
use openhands_symphony.Coordinator.Exec.{returned, Exec, ◌>>=◌, commit}
use openhands_symphony.Coordinator.Host.{Host}
use openhands_symphony.Coordinator.Runs.{finish}

-- `job = ...`
abbrev pub assign_job : Exec Job → Exec Job
assign_job m = m >>= λ job. λ w. (returned job, record w { frame = record w.frame { job = job } })

-- `provider_turn_started = True`
abbrev pub mark_started : Exec (Unit {0})
mark_started w = (returned tt, record w { frame = record w.frame { provider_turn_started = true } })

module _ (h : Host) where
  -- `job = self.store.update_job(job.id, ...)`
  abbrev pub updated : Job → List Assignment → Exec Job
  updated job values = assign_job (commit h.clock (λ now db. update_job job.id values now db))

  -- `job = self.store.transition(job.id, ...)`
  abbrev pub moved : Job → JobState → TransitionArgs → Exec Job
  moved job target args =
      assign_job (commit h.clock (λ now db. transition job.id target args now db))

  -- and `return self._finish(job)`
  abbrev pub stop : Job → JobState → TransitionArgs → Exec Job
  stop job target args = do stopped ← moved job target args; finish h stopped
