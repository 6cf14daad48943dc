-- ===== src/Github/Comments/Once.antt =====
-- On the comments of agents and of operators (src/symphony/github.py).
use openhands_symphony.Base.{
  Option-cases, inl, inr, ℕ, String, true, false, not, ◌≡◌, refl, Option, none, some, List, [], ◌∷◌,
  ◌||◌, ◌==◌, string_eq, if_ind, any, find_of_any,
}
use openhands_symphony.Models.{Job}
use openhands_symphony.Coordinator.Exec.{Outcome, returned, raised, continue, Post}
use openhands_symphony.Github.Api.{CommentRow, Pages, Call, Client, Calls, Gh, fetch}
use openhands_symphony.Github.Comments.{
  agent_result_marker_prefix, is_marked, of_pages, join_pages, paginated, bot_login, post_result,
  post_agent_result_comment,
}

-- Whatever the call did, the log is the given one.
pub record Silent (L : List Call) {A : Type 0} (r : Outcome A × Calls) : Type 0 where
  pub kept : r.1.log ≡ L

-- Whenever the comments of the issue are read, one of them is marked and by the login.
abbrev pub HasMarked : Client → (repository : String) → ℕ → (login marker : String) → Type 0
HasMarked c repository n login marker =
    (v : Calls)
    → Post (λ rows u. any (is_marked c login marker) rows ≡ true)
        (paginated (c.api.issue_comments repository n) v)

Silent-after :
    {A B : Type 0} (L : List Call) (Q : A → Calls → Type 0) (r : Outcome A × Calls)
    (k : A → Calls → Outcome B × Calls)
    → Post Q r
    → Silent L r
    → ((a : A) (v : Calls) → Q a v → v.log ≡ L → Silent L (k a v))
    → Silent L (continue r.0 k r.1)
Silent-after L Q (returned a, v) k h s go = go a v h.post s.kept
Silent-after L Q (raised f, v) k h s go = record { kept = s.kept }

Silent-then :
    {A B : Type 0} (L : List Call) (r : Outcome A × Calls) (k : A → Calls → Outcome B × Calls)
    → Silent L r
    → ((a : A) (v : Calls) → v.log ≡ L → Silent L (k a v))
    → Silent L (continue r.0 k r.1)
Silent-then L (returned a, v) k s go = go a v s.kept
Silent-then L (raised f, v) k s go = record { kept = s.kept }

join_pages-Silent :
    (pages : List (Option (List (Option CommentRow)))) (L : List Call) (w : Calls)
    → w.log ≡ L
    → Silent L (join_pages pages w)
unfolding join_pages
join_pages-Silent [] L w h = record { kept = h }
join_pages-Silent (none ∷ pages) L w h = record { kept = h }
join_pages-Silent (some rows ∷ pages) L w h =
    Silent-then L (join_pages pages w) _ (join_pages-Silent pages L w h)
      (λ rest v h. record { kept = h })

paginated-Silent : (source : ℕ → Outcome Pages) (w : Calls) → Silent w.log (paginated source w)
unfolding paginated
paginated-Silent source w = Silent-then w.log (fetch source w) _ (record { kept = refl }) go
  where
    go : (pages : Pages) (v : Calls) → v.log ≡ w.log → Silent w.log (of_pages pages v)
    go none v h = record { kept = h }
    go (some pages) v h = join_pages-Silent pages w.log v h

module _ (c : Client) where
  post_result-Silent :
      (job : Job) (marker body : String) (row : CommentRow) (L : List Call) (w : Calls)
      → w.log ≡ L
      → Silent L (post_result c job marker body (some row) w)
  post_result-Silent job marker body row L w h = elim (Option-cases row.id) [
    | inl e ↦ rw e (record { kept = h })
    | inr (id, e) ↦ rw e (record { kept = h })
  ]

  -- Once a comment of the bot with the marker of a provider turn is on the issue, reporting that turn
  -- again sends nothing, for a bot whose login is configured.
  pub post_agent_result_comment-Silent :
      (job : Job) (marker body : String) (w : Calls)
      → (c.configured_bot_login == "") ≡ false
      → HasMarked c job.repository job.issue_number c.configured_bot_login marker
      → Silent w.log (post_agent_result_comment c job marker body w)
  unfolding post_agent_result_comment bot_login
  post_agent_result_comment-Silent job marker body w configured marked =
      if_ind (λ (m : Gh ℕ). Silent w.log (m w))
        (not (c.starts_with agent_result_marker_prefix marker) || not (c.ends_with " -->" marker)) _
        _ (λ e. record { kept = refl })
        (λ e.
          Silent-after w.log (λ rows u. any (is_marked c c.configured_bot_login marker) rows ≡ true)
            (paginated (c.api.issue_comments job.repository job.issue_number) w) _ (marked w)
            (paginated-Silent (c.api.issue_comments job.repository job.issue_number) w)
            (λ rows v has kept. rw configured (
              let (row, found) = find_of_any (is_marked c c.configured_bot_login marker) rows has in
              rw found (post_result-Silent job marker body row w.log v kept))))
