-- ===== src/Github/Labels/Effect.antt =====
-- On the labels after `gh issue edit` (src/symphony/github.py).
use openhands_symphony.Base.{
  order_by, any-order_by, any, sym, Bool-cases, inl, inr, subst, eq_iff, eq_refl, ◌∙◌, if_ind,
  String, Bool, true, false, not, ◌≡◌, refl, List, [], ◌∷◌, ◌++◌, ◌&&◌, ◌||◌, ◌==◌, arith,
  string_eq, if◌then◌else◌, select, map,
}
use openhands_symphony.Models.{JobState}
use openhands_symphony.Intake.{contains}
use openhands_symphony.Store.Control.{Command, cancel, pause, resume, retry, other_command}
use openhands_symphony.Github.Api.{LabelEdit, add_label, remove_label}
use openhands_symphony.Github.Labels.{system_state_labels, state_label, state_edits, control_edits}

unfoldable pub added : List LabelEdit → String → Bool
added [] l = false
added (add_label k ∷ es) l = k == l || added es l
added (remove_label k ∷ es) l = added es l

unfoldable pub removed : List LabelEdit → String → Bool
removed [] l = false
removed (add_label k ∷ es) l = removed es l
removed (remove_label k ∷ es) l = k == l || removed es l

-- What `gh issue edit` documents: the labels after the edits are those that are added, and those that
-- were there and are not removed.
abbrev pub Edits : (List LabelEdit → List String → List String) → Type 0
Edits edit =
    (es : List LabelEdit) (labels : List String) (l : String)
    → contains (edit es labels) l ≡ added es l || (contains labels l && not (removed es l))

abbrev pub is_system : String → Bool
is_system l = contains system_state_labels l

added-append : (xs ys : List LabelEdit) (l : String) → added (xs ++ ys) l ≡ added xs l || added ys l
unfolding added
added-append [] ys l = refl
added-append (add_label k ∷ xs) ys l = ground (arith, added-append xs ys l)
added-append (remove_label k ∷ xs) ys l = added-append xs ys l

removed-append :
    (xs ys : List LabelEdit) (l : String) → removed (xs ++ ys) l ≡ removed xs l || removed ys l
unfolding removed
removed-append [] ys l = refl
removed-append (add_label k ∷ xs) ys l = removed-append xs ys l
removed-append (remove_label k ∷ xs) ys l = ground (arith, removed-append xs ys l)

added-removals : (ks : List String) (l : String) → added (map remove_label ks) l ≡ false
unfolding added
added-removals [] l = refl
added-removals (k ∷ ks) l = added-removals ks l

removed-removals : (ks : List String) (l : String) → removed (map remove_label ks) l ≡ contains ks l
unfolding removed contains
removed-removals [] l = refl
removed-removals (k ∷ ks) l = ground (arith, removed-removals ks l)

pub contains-select :
    (p : String → Bool) (ks : List String) (l : String)
    → contains (select p ks) l ≡ p l && contains ks l
unfolding contains select
contains-select p [] l = ground arith
contains-select p (k ∷ ks) l = elim (Bool-cases (k == l)) [
  | inl e ↦
      subst (λ x. contains (select p (k ∷ ks)) x ≡ p x && contains (k ∷ ks) x) ((eq_iff k l).0 e)
        (if_ind (λ xs. contains xs k ≡ p k && (k == k || contains ks k)) (p k) _ _
          (λ h. ground (arith, h, eq_refl k)) (λ h. ground (arith, h, contains-select p ks k)))
  | inr e ↦
      if_ind (λ xs. contains xs l ≡ p l && (k == l || contains ks l)) (p k) _ _
        (λ h. ground (arith, e, contains-select p ks l))
        (λ h. ground (arith, e, contains-select p ks l))
]

same_text : (a b : String) → (a == b) ≡ (b == a)
same_text a b = ground (arith, eq_iff a b, eq_iff b a)

state_label-is_system : (state : JobState) → is_system (state_label state) ≡ true
unfolding state_label contains
state_label-is_system JobState.queued = refl
state_label-is_system JobState.running = refl
state_label-is_system JobState.needs_guidance = refl
state_label-is_system JobState.pr_open = refl
state_label-is_system JobState.reviewing = refl
state_label-is_system JobState.blocked = refl
state_label-is_system JobState.failed = refl
state_label-is_system JobState.canceled = refl
state_label-is_system JobState.done = refl

added-state_edits :
    (desired : String) (labels : List String) (l : String)
    → added (state_edits desired labels) l ≡ not (contains labels desired) && desired == l
unfolding state_edits added
added-state_edits desired labels l =
    added-append
      (map remove_label (select (λ k. contains labels k && not (k == desired)) system_state_labels))
      _ l
    ∙ rw
        (added-removals (select (λ k. contains labels k && not (k == desired)) system_state_labels)
          l)
        (if_ind (λ es. added es l ≡ not (contains labels desired) && desired == l)
          (contains labels desired) _ _ (λ e. ground (arith, e)) (λ e. ground (arith, e)))

removed-state_edits :
    (desired : String) (labels : List String) (l : String)
    → removed (state_edits desired labels) l
      ≡ (contains labels l && not (l == desired)) && is_system l
unfolding state_edits removed
removed-state_edits desired labels l =
    let kept = select (λ k. contains labels k && not (k == desired)) system_state_labels in
    removed-append (map remove_label kept) _ l
    ∙ rw
        (
          removed-removals kept l,
          contains-select (λ k. contains labels k && not (k == desired)) system_state_labels l,
        )
        (if_ind
          (λ es.
            ((contains labels l && not (l == desired)) && is_system l) || removed es l
            ≡ ((contains labels l && not (l == desired)) && is_system l))
          (contains labels desired) _ _ (λ e. ground arith) (λ e. ground arith))

contains-any : (xs : List String) (l : String) → contains xs l ≡ any (λ x. x == l) xs
unfolding contains any
contains-any [] l = refl
contains-any (x ∷ xs) l = ground (arith, contains-any xs l)

pub contains-order_by :
    (before : String → String → Bool) (xs : List String) (l : String)
    → contains (order_by before xs) l ≡ contains xs l
contains-order_by before xs l =
    contains-any (order_by before xs) l
    ∙ any-order_by before (λ x. x == l) xs
    ∙ sym (contains-any xs l)

-- Of the labels for states, only the one of the state; of all others, those that were there.
pub state_edits-Exact :
    (edit : List LabelEdit → List String → List String)
    → Edits edit
    → (state : JobState) (labels read : List String)
    → ((l : String) → contains read l ≡ contains labels l)
    → (l : String)
    → contains (edit (state_edits (state_label state) read) labels) l
      ≡ (if is_system l then state_label state == l else contains labels l)
state_edits-Exact edit edits state labels read same l =
    let desired = state_label state in
    edits (state_edits desired read) labels l
    ∙ rw
        (added-state_edits desired read l, removed-state_edits desired read l, same desired, same l)
        (elim (Bool-cases (desired == l)) [
          | inl e ↦
              subst
                (λ x.
                  (not (contains labels desired) && desired == x)
                    || (contains labels x
                        && not ((contains labels x && not (x == desired)) && is_system x))
                  ≡ (if is_system x then desired == x else contains labels x))
                ((eq_iff desired l).0 e)
                (ground (arith, eq_refl desired, state_label-is_system state))
          | inr e ↦ ground (arith, e, same_text desired l)
        ])

-- What a command asks of the two labels that it may change.
abbrev pub Obeys : Command → (before after : String → Bool) → Type 0
Obeys pause before after = after "agent:paused" ≡ true
Obeys resume before after = (after "agent:paused" ≡ false) × (after "agent:ready" ≡ true)
Obeys retry before after = (after "agent:paused" ≡ false) × (after "agent:ready" ≡ true)
Obeys cancel before after = after "agent:ready" ≡ false
Obeys (other_command text) before after = (l : String) → after l ≡ before l

module _ (edit : List LabelEdit → List String → List String) (edits : Edits edit)
    (labels read : List String) (same : (l : String) → contains read l ≡ contains labels l) where
  -- The edits of resume and of retry.
  requeue-Obeys : Obeys resume (contains labels) (
      contains (
        edit
          ((if contains read "agent:paused" then remove_label "agent:paused" ∷ [] else [])
            ++ (if contains read "agent:ready" then [] else add_label "agent:ready" ∷ []))
          labels))
  unfolding added removed
  requeue-Obeys =
      let Good =
        λ (es : List LabelEdit). Obeys resume (contains labels) (contains (edit es labels)) in
      if_ind
        (λ xs.
          Good (xs ++ (if contains read "agent:ready" then [] else add_label "agent:ready" ∷ [])))
        (contains read "agent:paused") _ _
        (λ e.
          if_ind (λ ys. Good (remove_label "agent:paused" ∷ ys)) (contains read "agent:ready") _ _
            (λ f. (
              edits _ labels "agent:paused" ∙ ground arith,
              edits _ labels "agent:ready" ∙ ground (arith, f, same "agent:ready"),
            ))
            (λ f. (
              edits _ labels "agent:paused" ∙ ground arith,
              edits _ labels "agent:ready" ∙ ground arith,
            )))
        (λ e.
          if_ind Good (contains read "agent:ready") _ _
            (λ f. (
              edits _ labels "agent:paused" ∙ ground (arith, e, same "agent:paused"),
              edits _ labels "agent:ready" ∙ ground (arith, f, same "agent:ready"),
            ))
            (λ f. (
              edits _ labels "agent:paused" ∙ ground (arith, e, same "agent:paused"),
              edits _ labels "agent:ready" ∙ ground arith,
            )))

  pub control_edits-Obeys :
      (command : Command)
      → Obeys command (contains labels) (contains (edit (control_edits command read) labels))
  unfolding control_edits added removed
  control_edits-Obeys pause =
      if_ind (λ es. Obeys pause (contains labels) (contains (edit es labels)))
        (contains read "agent:paused") _ _
        (λ e. edits _ labels "agent:paused" ∙ ground (arith, e, same "agent:paused"))
        (λ e. edits _ labels "agent:paused" ∙ ground arith)
  control_edits-Obeys resume = requeue-Obeys
  control_edits-Obeys retry = requeue-Obeys
  control_edits-Obeys cancel =
      if_ind (λ es. Obeys cancel (contains labels) (contains (edit es labels)))
        (contains read "agent:ready") _ _ (λ e. edits _ labels "agent:ready" ∙ ground arith)
        (λ e. edits _ labels "agent:ready" ∙ ground (arith, e, same "agent:ready"))
  control_edits-Obeys (other_command text) = λ l. edits [] labels l ∙ ground arith
