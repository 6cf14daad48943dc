-- ===== src/Coordinator/Tests.antt =====
-- The theorems on src/symphony/coordinator.py at concrete calls.
use openhands_symphony.Base.{
  ◌+◌, ◌≤◌, true, false, ◌≡◌, refl, Option, none, some, arith, find, any, update_where,
  delete_where,
}
use openhands_symphony.Models.{Job, state_eq}
use openhands_symphony.Store.Log.{delivery_recorded, acquire_operation_lock}
use openhands_symphony.Store.Jobs.{get_job, get_job_by_id, update_job}
use openhands_symphony.Store.Control.{pause, cancel, is_known, request_control}
use openhands_symphony.Coordinator.Exec.{World, returned}
use openhands_symphony.Coordinator.Samples.{
  host, running_job, queued_world, running_world, reviewing_job, taken_over, under_review,
  claimed_by, finished,
}
use openhands_symphony.Coordinator.Runs.{cancel_active_run, sync_status, report}
use openhands_symphony.Coordinator.Command.{apply_control_comment}
use openhands_symphony.Coordinator.Command.Once.{
  UnlockedAfter, apply_control_comment_once, apply_control_comment-UnlockedAfter,
}
use openhands_symphony.Coordinator.Agent.{ProviderOutcome, ProviderResult}
use openhands_symphony.Store.Samples.{snapshot}
use openhands_symphony.Store.Reach.{here, next, locks}
use openhands_symphony.Store.Schema.{has_id}
use openhands_symphony.Coordinator.Exec.{provider_error, unexpected}
use openhands_symphony.Coordinator.Run.Failure.{has_live_pr, after_failure}
use openhands_symphony.Coordinator.Run.Settled.{
  Left, IsIdle, Preserves, after_failure-Left, after_failure-Preserves,
}
use openhands_symphony.Coordinator.Run.Deliver.{publish}
use openhands_symphony.Coordinator.Run.Fenced.{Fenced, LacksLease, publish-Fenced}
use openhands_symphony.Coordinator.Exec.{Post}
use openhands_symphony.Coordinator.Review.{review}
use openhands_symphony.Coordinator.Review.Ends.{IsReleased}
use openhands_symphony.Coordinator.Review.Quiet.{repairs_of}
use openhands_symphony.Coordinator.Review.Bounded.{review_ends}
use openhands_symphony.Coordinator.Result.{
  with_jitter, backoff_seconds, publish_provider_result, transition_from_provider_result,
}
use openhands_symphony.Coordinator.Result.Backoff.{with_jitter_bounded}
use openhands_symphony.Coordinator.Result.Retry.{Requeued, transition_from_provider_result-Requeued}

paused :
    (r : Option Job × World) × (apply_control_comment host "octo/app" 7 42 pause queued_world
      ≡ (returned (r.0, true), r.1))
unfolding apply_control_comment delivery_recorded any acquire_operation_lock delete_where
    request_control find is_known get_job cancel_active_run state_eq sync_status get_job_by_id
    update_where update_job report
paused = (_, refl)

-- The lock of another comment is taken in between.
abbrev later_world : World
later_world = record paused.0.1 {
  db = (acquire_operation_lock "control:other" "coordinator:2" 900 50 paused.0.1.db).1;
}

apply_control_comment_once_example :
    apply_control_comment host "octo/app" 7 42 cancel later_world
    ≡ (returned (get_job "octo/app" 7 later_world.db, false), later_world)
apply_control_comment_once_example =
    apply_control_comment_once host "octo/app" 7 42 pause queued_world paused.0.1 paused.0.0
      paused.1 later_world (next here (locks "control:other" "coordinator:2" 900 50 refl)) cancel

apply_control_comment-UnlockedAfter_example :
    UnlockedAfter host "octo/app" 7 42
      (apply_control_comment host "octo/app" 7 42 pause queued_world)
apply_control_comment-UnlockedAfter_example =
    apply_control_comment-UnlockedAfter host "octo/app" 7 42 pause queued_world

abbrev quota : ProviderResult
quota = record {
  outcome = ProviderOutcome.failed;
  summary = "rate limited";
  question_or_reason = "";
  conversation_id = none;
  session_id = none;
  failure_kind = some "quota";
  review_event = none;
  substantive_findings = none;
}

transition_from_provider_result-Requeued_example :
    Requeued host running_job
      (host.clock (publish_provider_result host running_job quota running_world).1.tick)
      ProviderOutcome.failed
      (transition_from_provider_result host running_job quota running_world)
transition_from_provider_result-Requeued_example =
    transition_from_provider_result-Requeued host running_job (omega arith) quota running_world

with_jitter_bounded_example :
    let delay = with_jitter host (backoff_seconds 60 900 7) 5 in
    (60 ≤ delay) × (delay ≤ 900 + 60) × (backoff_seconds 60 900 3 ≤ delay)
with_jitter_bounded_example =
    with_jitter_bounded host 3 7 5 (λ bound t. omega arith) (omega arith) (omega arith)

running_found : find (has_id running_job.id) running_world.db.jobs ≡ some running_job
unfolding find
running_found = refl

after_failure-Left_example :
    Left IsIdle running_job.id
      (after_failure host (provider_error "agent server is down") running_world)
after_failure-Left_example =
    after_failure-Left host (provider_error "agent server is down") running_world running_job
      running_found refl

under_review_found : find (has_id reviewing_job.id) under_review.db.jobs ≡ some reviewing_job
unfolding find
under_review_found = refl

under_review_live : has_live_pr reviewing_job ≡ true
unfolding has_live_pr state_eq
under_review_live = refl

after_failure-Preserves_example :
    Left
      (Preserves reviewing_job)
      reviewing_job.id
      (after_failure host (unexpected "KeyError") under_review)
after_failure-Preserves_example =
    after_failure-Preserves host (unexpected "KeyError") under_review reviewing_job
      under_review_found under_review_live

not_held : LacksLease host taken_over running_job.id "coordinator:1"
unfolding any
not_held tick later = refl

publish-Fenced_example :
    Fenced taken_over
      (publish host (claimed_by "coordinator:1") snapshot none "runs/job-1" finished taken_over)
publish-Fenced_example =
    publish-Fenced host taken_over (claimed_by "coordinator:1") snapshot none "runs/job-1" finished
      "coordinator:1" refl not_held

review_ends_example :
    Post IsReleased (review host reviewing_job "runs/job-1" under_review)
    × (repairs_of (review host reviewing_job "runs/job-1" under_review).1
        ≤ repairs_of under_review + host.config.max_review_repairs)
review_ends_example = review_ends host reviewing_job "runs/job-1" under_review
