-- ===== src/Coordinator/Review/Ends.antt =====
-- On the ways out of `_review` of src/symphony/coordinator.py.
use openhands_symphony.Base.{
  eq_iff, find_holds, ℕ, zero, suc, String, Bool, true, false, not, ◌≡◌, refl, sym, subst, ◌||◌,
  Option-cases, inl, inr, ◌==◌, string_eq, nat_eq, Option, none, some, if_ind, any, find,
}
use openhands_symphony.Models.{JobState, Job}
use openhands_symphony.Store.Schema.{has_id, holds}
use openhands_symphony.Store.Transition.{TransitionArgs, get_or, should_release, transition}
use openhands_symphony.Store.Transition.Legal.{transition-Moved}
use openhands_symphony.Coordinator.Exec.{
  ProviderRun, World, returned, Exec, Post, Post-then, Post-after, settle_ind,
}
use openhands_symphony.Coordinator.Agent.{Provider, ProviderResult}
use openhands_symphony.Coordinator.Host.{Host}
use openhands_symphony.Coordinator.Runs.{find_provider}
use openhands_symphony.Coordinator.Intake.{releasing}
use openhands_symphony.Coordinator.Turn.{run_validations}
use openhands_symphony.Coordinator.Review.{
  end_review, stopped_with, or_stopped, review_unless, guard, unavailable, after_repair,
  repair_unless, accept_review, repair_turn, push_repair, publish_repair, review_turn, post_review,
  repair, is_completed, findings_of, recommendation_of, rejected, review_round, review_rounds,
  review,
}

-- The job is in pr-open, is stored so, and has no lease.
pub record IsReleased (j : Job) (w : World) : Type 0 where
  pub open_pr : j.state ≡ JobState.pr_open
  pub stored : find (has_id j.id) w.db.jobs ≡ some j
  pub released : any (holds j.id) w.db.leases ≡ false

-- What was found by an id has that id.
IsReleased-as :
    (id : String) (j : Job) (w : World)
    → j.state ≡ JobState.pr_open
    → find (has_id id) w.db.jobs ≡ some j
    → any (holds id) w.db.leases ≡ false
    → IsReleased j w
IsReleased-as id j w open_pr stored released =
    let same = (eq_iff j.id id).0 (find_holds (has_id id) w.db.jobs j stored) in
    record {
      open_pr = open_pr;
      stored = subst (λ k. find (has_id k) w.db.jobs ≡ some j) (sym same) stored;
      released = subst (λ k. any (holds k) w.db.leases ≡ false) (sym same) released;
    }

-- A round that went on was not the last one.
abbrev RoundEnd : Bool → Option Job × Job → World → Type 0
RoundEnd last (some j, k) w = IsReleased j w
RoundEnd last (none, k) w = last ≡ false

module _ (h : Host) where
  end_review-IsReleased :
      (job : Job) (args : TransitionArgs) (w : World)
      → args.release_lease ≡ some true
      → Post IsReleased (end_review h job args w)
  unfolding end_review should_release
  end_review-IsReleased job args w release =
      settle_ind (Post IsReleased) (transition job.id JobState.pr_open args (h.clock w.tick) w.db) w
        (λ j db e.
          let m = transition-Moved job.id JobState.pr_open args (h.clock w.tick) w.db (j, db) e in
          record {
            post = IsReleased-as job.id j _ m.state m.stored (m.released (rw release refl));
          })
        (λ e. record { post = tt })

  stopped-RoundEnd :
      (last : Bool) (job : Job) (args : TransitionArgs) (w : World)
      → args.release_lease ≡ some true
      → Post (RoundEnd last) (stopped_with h job args w)
  stopped-RoundEnd last job args w release =
      Post-after IsReleased (RoundEnd last) (end_review h job args w) _
        (end_review-IsReleased job args w release) (λ j v released. record { post = released })

  after_repair-RoundEnd :
      (job : Job) (worktree : String) (repairs : ℕ) (result : ProviderResult) (w : World)
      → Post (RoundEnd false) (after_repair h job worktree repairs result w)
  unfolding after_repair
  after_repair-RoundEnd job worktree repairs result w =
      if_ind (λ (m : Exec (Option Job × Job)). Post (RoundEnd false) (m w))
        (not (is_completed result.outcome)) _ _ (λ _. stopped-RoundEnd false job _ w refl)
        (λ _. Post-then (RoundEnd false) (run_validations h job worktree w) _ λ verdict v.
          if_ind (λ (m : Exec (Option Job × Job)). Post (RoundEnd false) (m v)) (not verdict.0.0) _
            _ (λ _. stopped-RoundEnd false job _ v refl)
            (λ _. Post-then (RoundEnd false) (push_repair h job worktree v) _ λ _ u.
              Post-then (RoundEnd false) (publish_repair h job verdict.0.1 repairs u) _
                λ _ _. record { post = refl }))

  repair_unless-RoundEnd :
      (job : Job) (implementer : Provider) (worktree : String) (repairs : ℕ) (body : String)
      (reason : Option String) (w : World)
      → Post (RoundEnd false) (repair_unless h job implementer worktree repairs body reason w)
  unfolding repair_unless
  repair_unless-RoundEnd job implementer worktree repairs body (some detail) w =
      stopped-RoundEnd false job _ w refl
  repair_unless-RoundEnd job implementer worktree repairs body none w =
      Post-then (RoundEnd false) (repair_turn h job implementer worktree repairs body w) _
        λ turn v. after_repair-RoundEnd turn.0 worktree repairs turn.1 v

  repair-RoundEnd :
      (job : Job) (worktree : String) (repairs : ℕ) (body : String) (w : World)
      → Post (RoundEnd false) (repair h job worktree repairs body w)
  unfolding repair
  repair-RoundEnd job worktree repairs body w =
      elim (Option-cases (find_provider h job.implementation_provider)) [
        | inl e ↦ rw (e, repair) (record { post = tt })
        | inr (implementer, e) ↦
            rw (e, repair)
              (Post-then (RoundEnd false) (guard h job w) _ λ _ v.
                Post-then (RoundEnd false) (unavailable h implementer v) _
                  λ reason u. repair_unless-RoundEnd job implementer worktree repairs body reason u)
      ]

  accept_review-RoundEnd :
      (job : Job) (reviewer : Provider) (worktree : String) (last : Bool) (repairs : ℕ)
      (run : ProviderRun) (result : ProviderResult) (w : World)
      → Post (RoundEnd last) (accept_review h job reviewer worktree last repairs run result w)
  unfolding accept_review
  accept_review-RoundEnd job reviewer worktree last repairs run result w =
      let recommendation = recommendation_of (get_or result.review_event "") in
      Post-then (RoundEnd last) (post_review h job reviewer run result recommendation w) _ λ body v.
        if_ind (λ (m : Exec (Option Job × Job)). Post (RoundEnd last) (m v))
          (findings_of (get_or result.substantive_findings 0) recommendation == 0) _ _
          (λ _. stopped-RoundEnd last job _ v refl)
          (λ _.
            if_ind (λ (m : Exec (Option Job × Job)). Post (RoundEnd last) (m v)) last _ _
              (λ _. stopped-RoundEnd last job _ v refl)
              (λ e.
                subst (λ b. Post (RoundEnd b) (repair h job worktree (suc repairs) body v)) (sym e)
                  (repair-RoundEnd job worktree (suc repairs) body v)))

  review_round-RoundEnd :
      (job : Job) (reviewer : Provider) (worktree : String) (last : Bool) (repairs : ℕ) (w : World)
      → Post (RoundEnd last) (review_round h job reviewer worktree last repairs w)
  unfolding review_round
  review_round-RoundEnd job reviewer worktree last repairs w =
      Post-then (RoundEnd last) (review_turn h job reviewer worktree repairs w) _ λ turn v.
        elim (Option-cases (rejected h turn.0 turn.1.1)) [
          | inl e ↦
              rw e
                (accept_review-RoundEnd turn.0 reviewer worktree last repairs turn.1.0 turn.1.1 v)
          | inr ((phase, message), e) ↦
              rw e (stopped-RoundEnd last turn.0 (releasing phase message) v refl)
        ]

  review_rounds-IsReleased :
      (job : Job) (reviewer : Provider) (worktree : String) (left repairs : ℕ) (w : World)
      → Post IsReleased (review_rounds h job reviewer worktree left repairs w)
  unfolding review_rounds
  review_rounds-IsReleased job reviewer worktree zero repairs w =
      Post-after (RoundEnd true) IsReleased (review_round h job reviewer worktree true repairs w) _
        (review_round-RoundEnd job reviewer worktree true repairs w) over
    where
      over :
          (turn : Option Job × Job) (v : World)
          → RoundEnd true turn v
          → Post IsReleased (returned (get_or turn.0 turn.1), v)
      over (some j, k) v released = record { post = released }
      over (none, k) v e = cc
  review_rounds-IsReleased job reviewer worktree (suc left) repairs w =
      Post-after (RoundEnd false) IsReleased (review_round h job reviewer worktree false repairs w)
        _ (review_round-RoundEnd job reviewer worktree false repairs w)
        (λ turn v end.
          over turn v end (review_rounds h turn.1 reviewer worktree left (suc repairs))
            (review_rounds-IsReleased turn.1 reviewer worktree left (suc repairs) v))
    where
      over :
          (turn : Option Job × Job) (v : World)
          → RoundEnd false turn v
          → (rest : Exec Job) → Post IsReleased (rest v)
          → Post IsReleased (or_stopped h turn.0 rest v)
      over (some j, k) v released rest more = record { post = released }
      over (none, k) v e rest more = more

  review_unless-IsReleased :
      (job : Job) (reviewer : Provider) (worktree : String) (reason : Option String) (w : World)
      → Post IsReleased (review_unless h job reviewer worktree reason w)
  review_unless-IsReleased job reviewer worktree (some detail) w =
      end_review-IsReleased job _ w refl
  review_unless-IsReleased job reviewer worktree none w =
      review_rounds-IsReleased job reviewer worktree h.config.max_review_repairs 0 w

  -- A review that returns has ended in pr-open: the job is stored so, and its lease is released.
  pub review-IsReleased :
      (job : Job) (worktree : String) (w : World) → Post IsReleased (review h job worktree w)
  unfolding review
  review-IsReleased job worktree w =
      let name = get_or job.review_provider "" in
      elim (Option-cases (find_provider h name)) [
        | inl e ↦ rw (e, review) (end_review-IsReleased job _ w refl)
        | inr (reviewer, e) ↦
            rw (e, review)
              (if_ind (λ (m : Exec Job). Post IsReleased (m w))
                (name == "" || not reviewer.supports_review) _ _
                (λ _. end_review-IsReleased job _ w refl)
                (λ _.
                  Post-then IsReleased (unavailable h reviewer w) _
                    λ reason v. review_unless-IsReleased job reviewer worktree reason v))
      ]
