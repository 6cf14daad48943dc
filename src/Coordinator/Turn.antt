-- ===== src/Coordinator/Turn.antt =====
-- What a run of a job is made of (src/symphony/coordinator.py): the lease check before an outside
-- change, the slots of a provider, the validation commands, the heartbeat.
use openhands_symphony.Base.{
  ℕ, zero, suc, String, Bool, true, false, not, none, some, List, [], ◌∷◌, ◌&&◌, ◌||◌, ◌==◌,
  string_eq, nat_eq, ltb, if◌then◌else◌, any, length,
}
use openhands_symphony.Models.{ValidationResult, validation_ok, Job}
use openhands_symphony.Store.Schema.{lease_expired}
use openhands_symphony.Store.Log.{record_validation}
use openhands_symphony.Store.Jobs.{get_job_by_id}
use openhands_symphony.Store.Lease.{renew_lease}
use openhands_symphony.Store.Transition.{get_or}
use openhands_symphony.Config.{concurrency_key, lookup_repository, slots}
use openhands_symphony.Coordinator.Exec.{
  ProviderRun, store_error, stale_issue, provider_error, Exec, pure, raise, ◌>>=◌, ◌>>◌, query,
  commit_total, commit_log, ask, send, turn_started,
}
use openhands_symphony.Coordinator.Agent.{Provider, Prompt}
use openhands_symphony.Coordinator.Host.{Host}
use openhands_symphony.Coordinator.Runs.{find_provider, cancel_active_run}

abbrev quality_gate_path : String
quality_gate_path = ".openhands/quality-gate.sh"

module _ (h : Host) where
  -- `self.store.renew_lease(job.id, job.lease_owner or "", ...)`
  unfoldable pub renew : Job → Exec Bool
  renew job =
      commit_total h.clock
        (λ now db. renew_lease job.id (get_or job.lease_owner "") h.config.lease_seconds now db)

  unfoldable pub require_live_lease : Job → Exec (Unit {0})
  unfolding renew
  require_live_lease job = do
    renewed ← renew job
    if not renewed then raise (store_error lease_expired) else (do
      live ← ask (h.github.get_issue job.repository job.issue_number)
      elim (concurrency_key h.join h.config job.repository live.labels) [
        | none ↦ raise (
            stale_issue
              "concurrency scope changed after claim: exactly one configured concurrency-scope label is required")
        | some live_key ↦
            if live_key == job.concurrency_key
            then pure tt
            else raise (stale_issue "concurrency scope changed after claim")
      ])

  -- Each time that the semaphore was not free within a heartbeat, the lease is renewed.
  unfoldable pub wait_for_slot : Job → Provider → (waits : ℕ) → Exec (Unit {0})
  unfolding renew
  wait_for_slot job provider zero = pure tt
  wait_for_slot job provider (suc waits) = do
    renewed ← renew job
    if renewed
        then wait_for_slot job provider waits
        else raise (
            provider_error (
              h.append "lease expired while waiting for a "
                (h.append provider.name " provider slot")))

  -- There is a semaphore for the configured providers with a positive limit. The release at the end
  -- of the `with` changes nothing here: the answers of `slot_waits` stand for what the others hold.
  unfoldable pub provider_slot : Job → Provider → Exec (Unit {0})
  unfolding wait_for_slot slots find_provider
  provider_slot job provider = elim (find_provider h provider.name) [
    | none ↦
        raise
          (provider_error (h.append provider.name " has no available provider concurrency slot"))
    | some p ↦
        if ltb 0 (slots h.config.provider_concurrency provider.name)
        then (λ w. wait_for_slot job provider (h.slot_waits provider.name w.tick) w)
        else raise
            (provider_error (h.append provider.name " has no available provider concurrency slot"))
  ]

  -- `provider.start`, and `provider.resume`; both are events for the outside.
  unfoldable pub start_turn :
      Job → Provider → (worktree : String) → Prompt → (run_id : String) → Bool → Exec ProviderRun
  start_turn job provider worktree prompt run_id read_only =
      send (turn_started job.id provider.name read_only)
        (provider.start worktree prompt run_id read_only)

  unfoldable pub resume_turn : Job → Provider → ProviderRun → Prompt → Exec ProviderRun
  resume_turn job provider run prompt =
      send (turn_started job.id provider.name false) (provider.resume_run run prompt)

  unfoldable pub validation_commands : Job → (worktree : String) → Exec (List (List String))
  unfolding lookup_repository
  validation_commands job worktree =
      elim (lookup_repository h.config.repositories job.repository).validation_commands [
        | command ∷ rest ↦ pure (command ∷ rest)
        | [] ↦ do
          found ← ask (h.workspaces.has_quality_gate worktree)
          pure (if found then (("bash" ∷ quality_gate_path ∷ []) ∷ []) else [])
      ]

  unfoldable pub run_commands :
      Job → (worktree : String) → List (List String) → Exec (List ValidationResult)
  run_commands job worktree [] = pure []
  run_commands job worktree (command ∷ rest) = do
    ask (h.workspaces.verify_integrity job worktree)
    result ← ask (h.workspaces.run_validation command worktree)
    commit_log h.clock (λ now db. record_validation job.id job.attempt result db)
    ask (h.workspaces.verify_integrity job worktree)
    others ← run_commands job worktree rest
    pure (result ∷ others)

  unfoldable pub passed : List ValidationResult → ℕ
  unfolding validation_ok
  passed [] = 0
  passed (r ∷ rs) = let rest = passed rs in if validation_ok r then suc rest else rest

  abbrev number_text : ℕ → String
  number_text n = h.encode (h.digits n)

  -- The verdict, its summary and the results.
  unfoldable pub run_validations :
      Job → (worktree : String) → Exec ((Bool × String) × List ValidationResult)
  unfolding validation_commands run_commands passed
  run_validations job worktree = do
    commands ← validation_commands job worktree
    elim commands [
      | [] ↦ pure (
        (
          false,
          "No validation commands or .openhands/quality-gate.sh are configured; proof is required before push.",
        ),
        [],
      )
      | command ∷ rest ↦ do
        results ← run_commands job worktree (command ∷ rest)
        let summary =
            h.append (number_text (passed results))
              (h.append "/" (h.append (number_text (length results)) " configured commands passed"))
        pure ((passed results == length results, summary), results)
    ]

  unfoldable pub has_substantive_implementation : Job → (changed_paths : List String) → Bool
  has_substantive_implementation job changed_paths =
      let issue = h.snapshot_of job in
      let text = h.lower (h.append issue.title (h.append "\n" issue.body)) in
      any (λ path. not (path == quality_gate_path)) changed_paths
      || ((h.mentions quality_gate_path text || h.mentions "quality gate" text)
          && any (λ path. path == quality_gate_path) changed_paths)

  abbrev is_flagged : Job → Bool
  is_flagged job = job.cancel_requested || job.pause_requested

  -- The rounds of the heartbeat until the run is over; the answer is whether it canceled the run.
  unfoldable pub heartbeat : Job → (canceled : Bool) → (rounds : ℕ) → Exec Bool
  unfolding renew
  heartbeat job canceled zero = pure canceled
  heartbeat job canceled (suc rounds) = do
    renewed ← renew job
    found ← query (get_job_by_id job.id)
    if not renewed then (do cancel_active_run h (get_or found job); pure true) else elim found [
      | none ↦ heartbeat job canceled rounds
      | some current ↦
          if is_flagged current && not canceled
          then (do cancel_active_run h current; heartbeat job true rounds)
          else heartbeat job canceled rounds
    ]
