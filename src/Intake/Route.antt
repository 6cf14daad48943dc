-- ===== src/Intake/Route.antt =====
-- On `route` of src/symphony/intake.py.
use openhands_symphony.Base.{
  String, Bool, true, false, not, ◌≡◌, ◌≢◌, refl, sym, ◌∙◌, Option, none, some, List, [], ◌∷◌, ◌⊎◌,
  ◌==◌, string_eq, arith, eq_iff, any, select, All, All-imp, subst, All-select, All-order_by,
  any-order_by, if_ind, List-cases, Option-cases, inl, inr, string_ltb,
}
use openhands_symphony.Models.{IssueSnapshot}
use openhands_symphony.Intake.{
  contains, implementation_labels, review_labels, providers_for, RoutingDecision, other_reviewers,
  pick_reviewer, route_review, route_implementation, route,
}

-- The reviewer that a decision names, against the labels and the available reviewers.
abbrev pub ReviewerFits : String → Bool → Option String → List String → List String → Type 0
ReviewerFits implementation required none requested available =
    (required ≡ false) × (requested ≡ [])
ReviewerFits implementation required (some r) requested available =
    (required ≡ true)
    × ((requested ≡ r ∷ [])
        ⊎ ((requested ≡ []) × (pick_reviewer implementation available ≡ some r)))

pub record Routed (lower : String → String) (s : IssueSnapshot) (available : List String)
    (d : RoutingDecision) : Type 0 where
  pub implementation : String
  pub open_issue : (lower s.state == "open") ≡ true
  pub not_paused : contains s.labels "agent:paused" ≡ false
  pub not_manual : contains s.labels "agent:manual-only" ≡ false
  pub ready : contains s.labels "agent:ready" ≡ true
  pub only : providers_for implementation_labels s.labels ≡ implementation ∷ []
  pub chosen : d.implementation_provider ≡ some implementation
  pub required : d.review_required ≡ contains s.labels "review:required"
  pub reviewer :
      ReviewerFits implementation d.review_required d.review_provider
        (providers_for review_labels s.labels)
        available

abbrev pub WhenEligible : (RoutingDecision → Type 0) → RoutingDecision → Type 0
WhenEligible P d = d.eligible ≡ true → P d

abbrev Reviewed : String → Bool → List String → List String → RoutingDecision → Type 0
Reviewed implementation required requested available d =
    (d.implementation_provider ≡ some implementation)
    × (d.review_required ≡ required)
    × ReviewerFits implementation d.review_required d.review_provider requested available

route_review-Reviewed :
    (implementation : String) (required : Bool) (requested available : List String)
    → WhenEligible
        (Reviewed implementation required requested available)
        (route_review implementation required requested available)
unfolding route_review
route_review-Reviewed implementation required (r ∷ s ∷ more) available = λ e. cc
route_review-Reviewed implementation true (r ∷ []) available = λ _. (refl, refl, (refl, inl refl))
route_review-Reviewed implementation false (r ∷ []) available = λ e. cc
route_review-Reviewed implementation false [] available = λ _. (refl, refl, (refl, refl))
route_review-Reviewed implementation true [] available =
    elim (Option-cases (pick_reviewer implementation available)) [
      | inl e ↦ rw (e, route_review) (λ t. cc)
      | inr (r, e) ↦ rw (e, route_review) (λ _. (refl, refl, (refl, inr (refl, e))))
    ]

route_implementation_lem :
    (ps labels available : List String)
    → WhenEligible
        (λ d.
          (p : String) × (ps ≡ p ∷ [])
          × Reviewed p
              (contains labels "review:required")
              (providers_for review_labels labels)
              available
              d)
        (route_implementation ps labels available)
unfolding route_implementation
route_implementation_lem [] labels available = λ e. cc
route_implementation_lem (p ∷ q ∷ more) labels available = λ e. cc
route_implementation_lem (p ∷ []) labels available =
    λ e. (p, refl, route_review-Reviewed p _ _ available e)

-- An eligible decision: the issue is open, ready, neither paused nor manual-only, has exactly one
-- implementation label, which names the implementer; review is required just when its label says so;
-- and then the reviewer is the one requested by the only review label, or with no such label the one
-- picked from the available ones. Without required review no review label stands on the issue.
pub route-Routed :
    (lower : String → String) (s : IssueSnapshot) (available : List String)
    → (route lower s available).eligible ≡ true
    → Routed lower s available (route lower s available)
unfolding route
route-Routed lower s available =
    if_ind (WhenEligible (Routed lower s available)) (not (lower s.state == "open")) _ _ (λ _ e. cc)
      (λ open_issue.
        if_ind (WhenEligible (Routed lower s available)) (contains s.labels "agent:paused") _ _
          (λ _ e. cc)
          (λ not_paused.
            if_ind (WhenEligible (Routed lower s available)) (contains s.labels "agent:manual-only")
              _ _ (λ _ e. cc)
              (λ not_manual.
                if_ind (WhenEligible (Routed lower s available))
                  (not (contains s.labels "agent:ready")) _ _ (λ _ e. cc)
                  (λ ready e.
                    let (p, only, (chosen, required, reviewer)) =
                      route_implementation_lem (providers_for implementation_labels s.labels)
                        s.labels available e in
                    record {
                      implementation = p;
                      open_issue = ground arith;
                      not_paused = not_paused;
                      not_manual = not_manual;
                      ready = ground arith;
                      only = only;
                      chosen = chosen;
                      required = required;
                      reviewer = reviewer;
                    }))))

any-select : (p : String → Bool) (xs : List String) → any p (select p xs) ≡ any p xs
unfolding any select
any-select p [] = refl
any-select p (x ∷ xs) = ground (arith, any-select p xs)

All-trivial : (xs : List String) → All (λ _. Unit {0}) xs
All-trivial [] = tt
All-trivial (x ∷ xs) = (tt, All-trivial xs)

-- Independence: where some other provider is available, the picked reviewer is not the implementer.
pub pick_reviewer_other :
    (implementation : String) (available : List String) (r : String)
    → any (λ x. not (x == implementation)) available ≡ true
    → pick_reviewer implementation available ≡ some r
    → r ≢ implementation
unfolding pick_reviewer
pick_reviewer_other implementation available r others e =
    elim (List-cases (other_reviewers implementation available)) [
      | inl none_left ↦
          let empty : any (λ x. not (x == implementation))
                (other_reviewers implementation available)
              ≡ false =
            rw none_left (unfold any in refl) in
          cc (sym empty ∙ still_some)
      | inr (x, (rest, found)) ↦
          let head : not (x == implementation) ≡ true =
            (subst (All (λ y. not (y == implementation) ≡ true)) found others_only).0 in
          let e' : some x ≡ some r = rw (found, pick_reviewer) at e in
          λ same. ground (arith, eq_iff x implementation)
    ]
  where
    still_some :
        any (λ x. not (x == implementation)) (other_reviewers implementation available) ≡ true
    still_some =
        unfold other_reviewers in any-order_by string_ltb _ _ ∙ any-select _ available ∙ others

    others_only :
        All (λ y. not (y == implementation) ≡ true) (other_reviewers implementation available)
    others_only =
        unfold other_reviewers in
        All-order_by string_ltb _ _ (
          All-imp _ _ _ (λ y h. h.1)
            (All-select (λ _. Unit {0}) (λ y. not (y == implementation)) available
              (All-trivial available)))
