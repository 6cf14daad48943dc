-- ===== src/Coordinator/Review/Bounded.antt =====
-- On the bound of `_review` of src/symphony/coordinator.py on repairs.
use openhands_symphony.Base.{
  ℕ, zero, suc, ◌+◌, ◌≤◌, String, Bool, true, false, not, sym, subst, Option-cases, inl, inr, ◌||◌,
  ◌==◌, string_eq, nat_eq, Option, none, some, if_ind, arith,
}
use openhands_symphony.Models.{Job}
use openhands_symphony.Store.Transition.{get_or}
use openhands_symphony.Coordinator.Exec.{ProviderRun, World, Exec, Post, continue_ind}
use openhands_symphony.Coordinator.Agent.{Provider, ProviderResult}
use openhands_symphony.Coordinator.Host.{Host}
use openhands_symphony.Coordinator.Runs.{find_provider}
use openhands_symphony.Coordinator.Intake.{releasing}
use openhands_symphony.Coordinator.Turn.{run_validations}
use openhands_symphony.Coordinator.Review.{
  review_unless, guard, unavailable, after_repair, or_stopped, repair_unless, accept_review,
  repair_turn, push_repair, publish_repair, review_turn, post_review, repair, is_completed,
  findings_of, recommendation_of, rejected, review_round, review_rounds, review,
}
use openhands_symphony.Coordinator.Review.Ends.{IsReleased, review-IsReleased}
use openhands_symphony.Coordinator.Review.Quiet.{
  repairs_of, IsWithin, IsWithin-then, IsWithin-more, guard-IsWithin, unavailable-IsWithin,
  end_review-IsWithin, stopped_with-IsWithin,
}
use openhands_symphony.Coordinator.Review.Steps.{
  run_validations-IsWithin, push_repair-IsWithin, publish_repair-IsWithin, post_review-IsWithin,
}
use openhands_symphony.Coordinator.Review.Turns.{repair_turn-IsWithin, review_turn-IsWithin}

-- What the round may add: the last one has no repair.
abbrev in_round : Bool → ℕ → ℕ
in_round true n = n
in_round false n = suc n

in_round-le : (last : Bool) (n k : ℕ) → k ≤ n → k ≤ in_round last n
in_round-le true n k le = le
in_round-le false n k le = omega (arith, le)

module _ (h : Host) where
  after_repair-IsWithin :
      (n : ℕ) (job : Job) (worktree : String) (repairs : ℕ) (result : ProviderResult) (w : World)
      → repairs_of w ≤ n
      → IsWithin n (after_repair h job worktree repairs result w)
  unfolding after_repair
  after_repair-IsWithin n job worktree repairs result w le =
      if_ind (λ (m : Exec (Option Job × Job)). IsWithin n (m w)) (not (is_completed result.outcome))
        _ _ (λ _. stopped_with-IsWithin h n job _ w le)
        (λ _.
          IsWithin-then n (run_validations h job worktree w) _
            (run_validations-IsWithin h n job worktree w le)
            λ verdict v at.
              if_ind (λ (m : Exec (Option Job × Job)). IsWithin n (m v)) (not verdict.0.0) _ _
                (λ _. stopped_with-IsWithin h n job _ v at)
                (λ _.
                  IsWithin-then n (push_repair h job worktree v) _
                    (push_repair-IsWithin h n job worktree v at)
                    λ _ u at.
                      IsWithin-then n (publish_repair h job verdict.0.1 repairs u) _
                        (publish_repair-IsWithin h n job verdict.0.1 repairs u at)
                        λ updated t at. record { within = at }))

  repair_unless-IsWithin :
      (n : ℕ) (job : Job) (implementer : Provider) (worktree : String) (repairs : ℕ) (body : String)
      (reason : Option String) (w : World)
      → repairs_of w ≤ n
      → IsWithin (suc n) (repair_unless h job implementer worktree repairs body reason w)
  unfolding repair_unless
  repair_unless-IsWithin n job implementer worktree repairs body (some detail) w le =
      stopped_with-IsWithin h (suc n) job _ w (omega (arith, le))
  repair_unless-IsWithin n job implementer worktree repairs body none w le =
      IsWithin-then (suc n) (repair_turn h job implementer worktree repairs body w) _
        (repair_turn-IsWithin h n job implementer worktree repairs body w le)
        λ turn v at. after_repair-IsWithin (suc n) turn.0 worktree repairs turn.1 v at

  repair-IsWithin :
      (n : ℕ) (job : Job) (worktree : String) (repairs : ℕ) (body : String) (w : World)
      → repairs_of w ≤ n
      → IsWithin (suc n) (repair h job worktree repairs body w)
  unfolding repair
  repair-IsWithin n job worktree repairs body w le =
      elim (Option-cases (find_provider h job.implementation_provider)) [
        | inl e ↦ rw (e, repair) (record { within = omega (arith, le) })
        | inr (implementer, e) ↦
            rw (e, repair)
              (IsWithin-more n (guard h job w) _ (guard-IsWithin h n job w le) λ _ v at.
                IsWithin-more n (unavailable h implementer v) _
                  (unavailable-IsWithin h n implementer v at)
                  λ reason u at.
                    repair_unless-IsWithin n job implementer worktree repairs body reason u at)
      ]

  accept_review-IsWithin :
      (n : ℕ) (job : Job) (reviewer : Provider) (worktree : String) (last : Bool) (repairs : ℕ)
      (run : ProviderRun) (result : ProviderResult) (w : World)
      → repairs_of w ≤ n
      → IsWithin (in_round last n) (accept_review h job reviewer worktree last repairs run result w)
  unfolding accept_review
  accept_review-IsWithin n job reviewer worktree last repairs run result w le =
      let m = in_round last n in
      let recommendation = recommendation_of (get_or result.review_event "") in
      let posted = post_review-IsWithin h n job reviewer run result recommendation w le in
      continue_ind (IsWithin m) (post_review h job reviewer run result recommendation w).0 _
        (post_review h job reviewer run result recommendation w).1
        (λ body.
          let v = (post_review h job reviewer run result recommendation w).1 in
          let at = in_round-le last n _ posted.within in
          if_ind (λ (act : Exec (Option Job × Job)). IsWithin m (act v))
            (findings_of (get_or result.substantive_findings 0) recommendation == 0) _ _
            (λ _. stopped_with-IsWithin h m job _ v at)
            (λ _.
              if_ind (λ (act : Exec (Option Job × Job)). IsWithin m (act v)) last _ _
                (λ _. stopped_with-IsWithin h m job _ v at)
                (λ e.
                  subst (λ b. IsWithin (in_round b n) (repair h job worktree (suc repairs) body v))
                    (sym e) (repair-IsWithin n job worktree (suc repairs) body v posted.within))))
        (λ f. record { within = in_round-le last n _ posted.within })

  review_round-IsWithin :
      (n : ℕ) (job : Job) (reviewer : Provider) (worktree : String) (last : Bool) (repairs : ℕ)
      (w : World)
      → repairs_of w ≤ n
      → IsWithin (in_round last n) (review_round h job reviewer worktree last repairs w)
  unfolding review_round
  review_round-IsWithin n job reviewer worktree last repairs w le =
      let turned = review_turn-IsWithin h n job reviewer worktree repairs w le in
      let v = (review_turn h job reviewer worktree repairs w).1 in
      let at = in_round-le last n _ turned.within in
      continue_ind (IsWithin (in_round last n)) (review_turn h job reviewer worktree repairs w).0 _
        v
        (λ turn. elim (Option-cases (rejected h turn.0 turn.1.1)) [
          | inl e ↦ rw e (
              accept_review-IsWithin n turn.0 reviewer worktree last repairs turn.1.0 turn.1.1 v
                turned.within)
          | inr ((phase, message), e) ↦
              rw e (stopped_with-IsWithin h (in_round last n) turn.0 (releasing phase message) v at)
        ])
        (λ f. record { within = at })

  review_rounds-IsWithin :
      (n : ℕ) (job : Job) (reviewer : Provider) (worktree : String) (left repairs : ℕ) (w : World)
      → repairs_of w ≤ n
      → IsWithin (n + left) (review_rounds h job reviewer worktree left repairs w)
  unfolding review_rounds
  review_rounds-IsWithin n job reviewer worktree zero repairs w le =
      subst (λ k. IsWithin k (review_rounds h job reviewer worktree 0 repairs w)) (omega arith)
        (IsWithin-then n (review_round h job reviewer worktree true repairs w) _
          (review_round-IsWithin n job reviewer worktree true repairs w le)
          λ turn v at. record { within = at })
  review_rounds-IsWithin n job reviewer worktree (suc left) repairs w le =
      let round = review_round-IsWithin n job reviewer worktree false repairs w le in
      let v = (review_round h job reviewer worktree false repairs w).1 in
      let at : repairs_of v ≤ suc n = round.within in
      continue_ind (IsWithin (n + suc left))
        (review_round h job reviewer worktree false repairs w).0 _ v
        (λ turn. over turn.0 v at (review_rounds h turn.1 reviewer worktree left (suc repairs)) (
          subst (λ k. IsWithin k (review_rounds h turn.1 reviewer worktree left (suc repairs) v))
            (omega arith)
            (review_rounds-IsWithin (suc n) turn.1 reviewer worktree left (suc repairs) v at)))
        (λ f. record { within = omega (arith, at) })
    where
      over :
          (o : Option Job) (v : World)
          → repairs_of v ≤ suc n
          → (rest : Exec Job) → IsWithin (n + suc left) (rest v)
          → IsWithin (n + suc left) (or_stopped h o rest v)
      over (some j) v at rest more = record { within = omega (arith, at) }
      over none v at rest more = more

  review_unless-IsWithin :
      (n : ℕ) (job : Job) (reviewer : Provider) (worktree : String) (reason : Option String)
      (w : World)
      → repairs_of w ≤ n
      → IsWithin (n + h.config.max_review_repairs) (review_unless h job reviewer worktree reason w)
  review_unless-IsWithin n job reviewer worktree (some detail) w le =
      end_review-IsWithin h (n + h.config.max_review_repairs) job _ w (omega (arith, le))
  review_unless-IsWithin n job reviewer worktree none w le =
      review_rounds-IsWithin n job reviewer worktree h.config.max_review_repairs 0 w le

  review-IsWithin :
      (job : Job) (worktree : String) (w : World)
      → IsWithin (repairs_of w + h.config.max_review_repairs) (review h job worktree w)
  unfolding review
  review-IsWithin job worktree w =
      let name = get_or job.review_provider "" in
      let m = repairs_of w + h.config.max_review_repairs in
      let le : repairs_of w ≤ m = omega arith in
      elim (Option-cases (find_provider h name)) [
        | inl e ↦ rw (e, review) (end_review-IsWithin h m job _ w le)
        | inr (reviewer, e) ↦
            rw (e, review)
              (if_ind (λ (act : Exec Job). IsWithin m (act w))
                (name == "" || not reviewer.supports_review) _ _
                (λ _. end_review-IsWithin h m job _ w le)
                (λ _.
                  let asked = unavailable-IsWithin h (repairs_of w) reviewer w (omega arith) in
                  continue_ind (IsWithin m) (unavailable h reviewer w).0 _
                    (unavailable h reviewer w).1
                    (λ reason.
                      review_unless-IsWithin (repairs_of w) job reviewer worktree reason
                        (unavailable h reviewer w).1 asked.within)
                    (λ f. record { within = omega (arith, asked.within) })))
      ]

  -- However a review ends, returning or raising, the implementer got at most the configured number
  -- of repair turns in it. If it returns, the job is in pr-open, is stored so, and has no lease.
  pub review_ends :
      (job : Job) (worktree : String) (w : World)
      → Post IsReleased (review h job worktree w)
        × (repairs_of (review h job worktree w).1 ≤ repairs_of w + h.config.max_review_repairs)
  review_ends job worktree w =
      (review-IsReleased h job worktree w, (review-IsWithin job worktree w).within)
