-- ===== src/Coordinator/Review/Turns.antt =====
-- The turns of `_review` of src/symphony/coordinator.py.
use openhands_symphony.Base.{some, ℕ, suc, ◌≤◌, String, true, false, refl, [], ◌∷◌}
use openhands_symphony.Models.{Job, JobState}
use openhands_symphony.Store.Jobs.{
  update_job, set_review_conversation_id, set_review_session_id, set_conversation_id,
  set_session_id, set_phase,
}
use openhands_symphony.Store.Transition.{no_args, transition}
use openhands_symphony.Coordinator.Exec.{turn_started, World, commit, ask, send}
use openhands_symphony.Coordinator.Agent.{Provider, review_prompt, repair_prompt}
use openhands_symphony.Coordinator.Host.{Host}
use openhands_symphony.Coordinator.Turn.{require_live_lease, provider_slot, start_turn}
use openhands_symphony.Coordinator.Review.{pr_of, guard, review_turn, repair_turn}
use openhands_symphony.Coordinator.Review.Quiet.{
  repairs_of, IsWithin, IsWithin-then, IsWithin-more, settle-IsWithin, send-IsWithin,
  send-IsWithin-suc, require_live_lease-IsWithin, provider_slot-IsWithin, guard-IsWithin,
}

module _ (h : Host) (n : ℕ) where
  pub review_turn-IsWithin :
      (job : Job) (reviewer : Provider) (worktree : String) (repairs : ℕ) (w : World)
      → repairs_of w ≤ n
      → IsWithin n (review_turn h job reviewer worktree repairs w)
  unfolding review_turn start_turn
  review_turn-IsWithin job reviewer worktree repairs w le =
      IsWithin-then n (require_live_lease h job w) _ (require_live_lease-IsWithin h n job w le)
        λ _ v at. IsWithin-then n (guard h job v) _ (guard-IsWithin h n job v at) λ _ u at.
          IsWithin-then n
            (commit h.clock
              (λ now db.
                transition job.id JobState.reviewing
                  (record no_args { phase = some "independent-review"; release_lease = some false })
                  now db)
              u)
            _ (settle-IsWithin n _ u at)
            λ reviewing t at.
              IsWithin-then n
                (ask (h.github.review_context reviewing.repository (pr_of reviewing)) t) _
                (record { within = at })
                λ context s at.
                  IsWithin-then n (provider_slot h reviewing reviewer s) _
                    (provider_slot-IsWithin h n reviewing reviewer s at)
                    λ _ r at.
                      IsWithin-then n
                        (send (turn_started reviewing.id reviewer.name true)
                          (reviewer.start worktree (review_prompt reviewing context)
                            (h.review_run_id reviewing.id repairs) true)
                          r)
                        _
                        (send-IsWithin n (turn_started reviewing.id reviewer.name true) _ r refl at)
                        λ run q at.
                          IsWithin-then n
                            (commit h.clock
                              (λ now db.
                                update_job reviewing.id
                                  (set_review_conversation_id (some run.conversation_id)
                                    ∷ set_review_session_id run.session_id
                                    ∷ [])
                                  now db)
                              q)
                            _ (settle-IsWithin n _ q at)
                            λ updated p at.
                              IsWithin-then n (ask (reviewer.wait run) p) _ (record { within = at })
                                λ result o at. record { within = at }

  pub repair_turn-IsWithin :
      (job : Job) (implementer : Provider) (worktree : String) (repairs : ℕ) (body : String)
      (w : World)
      → repairs_of w ≤ n
      → IsWithin (suc n) (repair_turn h job implementer worktree repairs body w)
  unfolding repair_turn start_turn
  repair_turn-IsWithin job implementer worktree repairs body w le =
      IsWithin-more n (provider_slot h job implementer w) _
        (provider_slot-IsWithin h n job implementer w le)
        λ _ v at.
          IsWithin-then (suc n)
            (send (turn_started job.id implementer.name false)
              (implementer.start worktree (repair_prompt body) (h.repair_run_id job.id repairs)
                false)
              v)
            _ (send-IsWithin-suc n (turn_started job.id implementer.name false) _ v at)
            λ run u at.
              IsWithin-then (suc n)
                (commit h.clock
                  (λ now db.
                    update_job job.id
                      (set_conversation_id (some run.conversation_id)
                        ∷ set_session_id run.session_id
                        ∷ set_phase "review-repair"
                        ∷ [])
                      now db)
                  u)
                _ (settle-IsWithin (suc n) _ u at)
                λ updated t at.
                  IsWithin-then (suc n) (ask (implementer.wait run) t) _ (record { within = at })
                    λ result s at. record { within = at }
