-- ===== src/Scheduler/Tests.antt =====
-- The theorems on src/symphony/scheduler.py at a concrete tick.
use openhands_symphony.Base.{false, [], ◌∷◌, ◌==◌, string_eq, arith}
use openhands_symphony.Coordinator.Samples.{host, queued_world}
use openhands_symphony.Scheduler.{Scheduler, tick}
use openhands_symphony.Scheduler.Bounds.{Within, tick-Within}

abbrev scheduler : Scheduler
scheduler = record { owner = "host:1:abc"; futures = "job-7" ∷ "job-8" ∷ []; last_reconcile = 0 }

tick-Within_example : Within host (tick host (λ id. id == "job-7") false 10 scheduler queued_world)
tick-Within_example =
    tick-Within host (λ id. id == "job-7") false 10 scheduler queued_world (omega arith)
