-- ===== src/Coordinator/Review/Steps.antt =====
-- The validation and the posts of `_review` of src/symphony/coordinator.py.
use openhands_symphony.Base.{ℕ, ◌≤◌, String, not, refl, List, [], ◌∷◌, if_ind, List-cases, inl, inr}
use openhands_symphony.Models.{Job}
use openhands_symphony.Store.Schema.{review_detail, pass_detail, other}
use openhands_symphony.Store.Log.{record_event, record_validation}
use openhands_symphony.Store.Jobs.{update_job, set_validation_summary}
use openhands_symphony.Coordinator.Reconcile.{ci_summary, validation_with_ci}
use openhands_symphony.Config.{lookup_repository}
use openhands_symphony.Coordinator.Exec.{
  review_posted, pushed, validation_published, ProviderRun, World, Exec, commit, commit_log, ask,
  send,
}
use openhands_symphony.Coordinator.Agent.{Provider, ProviderResult}
use openhands_symphony.Coordinator.Host.{Host}
use openhands_symphony.Coordinator.Turn.{
  require_live_lease, validation_commands, run_commands, run_validations,
}
use openhands_symphony.Coordinator.Review.{pr_of, guard, post_review, push_repair, publish_repair}
use openhands_symphony.Coordinator.Review.Quiet.{
  repairs_of, IsWithin, IsWithin-then, settle-IsWithin, settle_log-IsWithin, send-IsWithin,
  require_live_lease-IsWithin, guard-IsWithin,
}

module _ (h : Host) (n : ℕ) where
  validation_commands-IsWithin :
      (job : Job) (worktree : String) (w : World)
      → repairs_of w ≤ n
      → IsWithin n (validation_commands h job worktree w)
  unfolding validation_commands
  validation_commands-IsWithin job worktree w le =
      elim (List-cases
        (lookup_repository h.config.repositories job.repository).validation_commands) [
          | inr (command, (rest, e)) ↦ rw (e, validation_commands) (record { within = le })
          | inl e ↦
              rw (e, validation_commands)
                (IsWithin-then n (ask (h.workspaces.has_quality_gate worktree) w) _
                  (record { within = le }) λ found v at. record { within = at })
        ]

  run_commands-IsWithin :
      (job : Job) (worktree : String) (commands : List (List String)) (w : World)
      → repairs_of w ≤ n
      → IsWithin n (run_commands h job worktree commands w)
  unfolding run_commands
  run_commands-IsWithin job worktree [] w le = record { within = le }
  run_commands-IsWithin job worktree (command ∷ rest) w le =
      IsWithin-then n (ask (h.workspaces.verify_integrity job worktree) w) _
        (record { within = le })
        λ _ v at.
          IsWithin-then n (ask (h.workspaces.run_validation command worktree) v) _
            (record { within = at })
            λ result u at.
              IsWithin-then n
                (commit_log h.clock (λ now db. record_validation job.id job.attempt result db) u) _
                (settle_log-IsWithin n _ u at)
                λ _ t at.
                  IsWithin-then n (ask (h.workspaces.verify_integrity job worktree) t) _
                    (record { within = at })
                    λ _ s at.
                      IsWithin-then n (run_commands h job worktree rest s) _
                        (run_commands-IsWithin job worktree rest s at)
                        λ others r at. record { within = at }

  pub run_validations-IsWithin :
      (job : Job) (worktree : String) (w : World)
      → repairs_of w ≤ n
      → IsWithin n (run_validations h job worktree w)
  unfolding run_validations
  run_validations-IsWithin job worktree w le =
      IsWithin-then n (validation_commands h job worktree w) _
        (validation_commands-IsWithin job worktree w le)
        λ commands v at. elim (List-cases commands) [
          | inl e ↦ rw e (record { within = at })
          | inr (command, (rest, e)) ↦ rw e (
              IsWithin-then n (run_commands h job worktree (command ∷ rest) v) _
                (run_commands-IsWithin job worktree (command ∷ rest) v at)
                λ results u at. record { within = at })
        ]

  pub post_review-IsWithin :
      (job : Job) (reviewer : Provider) (run : ProviderRun) (result : ProviderResult)
      (recommendation : String) (w : World)
      → repairs_of w ≤ n
      → IsWithin n (post_review h job reviewer run result recommendation w)
  unfolding post_review
  post_review-IsWithin job reviewer run result recommendation w le =
      IsWithin-then n (require_live_lease h job w) _ (require_live_lease-IsWithin h n job w le)
        λ _ v at. IsWithin-then n (guard h job v) _ (guard-IsWithin h n job v at) λ _ u at.
          IsWithin-then n
            (send (review_posted job.id)
              (h.github.post_review job.repository (pr_of job)
                (h.review_body result.summary reviewer.name run.conversation_id recommendation)
                "comment")
              u)
            _ (send-IsWithin n (review_posted job.id) _ u refl at)
            λ _ t at.
              IsWithin-then n
                (commit_log h.clock
                  (λ now db.
                    record_event job.id "github-review"
                      (review_detail reviewer.name "comment" recommendation run.conversation_id) now
                      db)
                  t)
                _ (settle_log-IsWithin n _ t at) λ _ s at. record { within = at }

  pub push_repair-IsWithin :
      (job : Job) (worktree : String) (w : World)
      → repairs_of w ≤ n
      → IsWithin n (push_repair h job worktree w)
  unfolding push_repair
  push_repair-IsWithin job worktree w le =
      IsWithin-then n (ask (h.workspaces.has_changes worktree) w) _ (record { within = le })
        λ changed v at.
          if_ind (λ (m : Exec (Unit {0})). IsWithin n (m v)) (not changed) _ _
            (λ _. record { within = at })
            λ _.
              IsWithin-then n (ask (h.workspaces.verify_integrity job worktree) v) _
                (record { within = at })
                λ _ u at.
                  IsWithin-then n (ask (h.workspaces.commit_changes worktree job.issue_number) u) _
                    (record { within = at })
                    λ _ t at.
                      IsWithin-then n (require_live_lease h job t) _
                        (require_live_lease-IsWithin h n job t at)
                        λ _ s at.
                          IsWithin-then n (guard h job s) _ (guard-IsWithin h n job s at)
                            λ _ r at. send-IsWithin n (pushed job.id) _ r refl at

  pub publish_repair-IsWithin :
      (job : Job) (summary : String) (repairs : ℕ) (w : World)
      → repairs_of w ≤ n
      → IsWithin n (publish_repair h job summary repairs w)
  unfolding publish_repair
  publish_repair-IsWithin job summary repairs w le =
      IsWithin-then n (ask (h.github.pr_checks job.repository (pr_of job)) w) _
        (record { within = le })
        λ checks v at.
          IsWithin-then n
            (commit h.clock
              (λ now db.
                update_job job.id
                  (set_validation_summary (validation_with_ci h summary checks) ∷ []) now db)
              v)
            _ (settle-IsWithin n _ v at)
            λ updated u at.
              IsWithin-then n
                (commit_log h.clock
                  (λ now db.
                    record_event updated.id "ci-observed" (other (ci_summary h checks)) now db)
                  u)
                _ (settle_log-IsWithin n _ u at)
                λ _ t at.
                  IsWithin-then n (require_live_lease h updated t) _
                    (require_live_lease-IsWithin h n updated t at)
                    λ _ s at.
                      IsWithin-then n
                        (send (validation_published updated.id)
                          (h.github.update_pr_validation updated) s)
                        _ (send-IsWithin n (validation_published updated.id) _ s refl at)
                        λ _ r at.
                          IsWithin-then n
                            (commit_log h.clock
                              (λ now db.
                                record_event updated.id "review-repair" (pass_detail repairs) now
                                  db)
                              r)
                            _ (settle_log-IsWithin n _ r at) λ _ q at. record { within = at }
