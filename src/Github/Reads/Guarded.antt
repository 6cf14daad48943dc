-- ===== src/Github/Reads/Guarded.antt =====
-- On the guards of src/symphony/github.py.
use openhands_symphony.Base.{Bool, true, false, not, ◌≡◌, ◌||◌, ◌==◌, arith, if_ind, string_eq}
use openhands_symphony.Models.{IssueSnapshot, Job, content_hash}
use openhands_symphony.Intake.{contains, route}
use openhands_symphony.Coordinator.Exec.{Post, Post-then, Post-after}
use openhands_symphony.Github.Api.{Client, Calls, Gh}
use openhands_symphony.Github.Reads.{
  own_reviewer, routing_differs, is_foreign, get_issue, find_open_pr, remote_branch_exists,
  live_issue_guard, live_control_guard, guard_code_mutation,
}

-- What the guard of controls has seen.
pub record IsLive (c : Client) (live : IssueSnapshot) : Type 0 where
  pub open_issue : (c.lower live.state == "open") ≡ true
  pub not_paused : contains live.labels "agent:paused" ≡ false
  pub not_manual : contains live.labels "agent:manual-only" ≡ false

pub record Guarded (c : Client) (job : Job) (live : IssueSnapshot) : Type 0 where
  pub is_live : IsLive c live
  pub same_content : (content_hash c.hashing live == job.content_hash) ≡ true
  pub same_routing : routing_differs c job (route c.lower live (own_reviewer job)) ≡ false

module _ (c : Client) (job : Job) where
  live_control_guard-IsLive :
      (w : Calls) → Post (λ live v. IsLive c live) (live_control_guard c job w)
  unfolding live_control_guard live_issue_guard
  live_control_guard-IsLive w =
      Post-after (λ live v. (c.lower live.state == "open") ≡ true) (λ live v. IsLive c live)
        (live_issue_guard c job w) _
        (Post-then (λ live v. (c.lower live.state == "open") ≡ true)
          (get_issue c job.repository job.issue_number w) _
          λ live v.
            if_ind
              (λ (m : Gh IssueSnapshot).
                Post (λ live v. (c.lower live.state == "open") ≡ true) (m v))
              (c.lower live.state == "open") _ _ (λ e. record { post = e })
              (λ e. record { post = tt }))
        (λ live v is_open.
          if_ind (λ (m : Gh IssueSnapshot). Post (λ live v. IsLive c live) (m v))
            (contains live.labels "agent:paused" || contains live.labels "agent:manual-only") _ _
            (λ e. record { post = tt })
            (λ e. record {
              post = record {
                open_issue = is_open;
                not_paused = ground (arith, e);
                not_manual = ground (arith, e);
              };
            }))

  -- A push or a pull request that the guard lets through is for an issue that is open and neither
  -- paused nor manual-only, whose content is the one that was claimed, and whose live labels still
  -- route it to the same provider and reviewer.
  pub guard_code_mutation-Guarded :
      (allow_existing_branch : Bool) (w : Calls)
      → Post (λ live v. Guarded c job live) (guard_code_mutation c job allow_existing_branch w)
  unfolding guard_code_mutation
  guard_code_mutation-Guarded allow_existing_branch w =
      Post-after (λ live v. IsLive c live) (λ live v. Guarded c job live)
        (live_control_guard c job w) _ (live_control_guard-IsLive w)
        (λ live v is_live.
          let Ends =
            λ (m : Gh IssueSnapshot) (u : Calls). Post (λ live v. Guarded c job live) (m u) in
          if_ind (λ m. Ends m v) (not (content_hash c.hashing live == job.content_hash)) _ _
            (λ e. record { post = tt })
            (λ same.
              if_ind (λ m. Ends m v) (routing_differs c job (route c.lower live (own_reviewer job)))
                _ _ (λ e. record { post = tt })
                (λ routing.
                  let guarded : Guarded c job live = record {
                    is_live = is_live;
                    same_content = ground (arith, same);
                    same_routing = routing;
                  } in
                  Post-then (λ live v. Guarded c job live)
                    (find_open_pr c job.repository job.branch v) _
                    λ pr u.
                      if_ind (λ m. Ends m u) (is_foreign c job pr) _ _ (λ e. record { post = tt })
                        (λ e.
                          if_ind (λ m. Ends m u) allow_existing_branch _ _
                            (λ e. record { post = guarded })
                            (λ e.
                              Post-then (λ live v. Guarded c job live)
                                (remote_branch_exists c job.repository job.branch u) _
                                λ exists t.
                                  if_ind (λ m. Ends m t) exists _ _ (λ e. record { post = tt })
                                    (λ e. record { post = guarded }))))))
