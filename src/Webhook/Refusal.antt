-- ===== src/Webhook/Refusal.antt =====
-- On deliveries that change nothing (src/symphony/webhook.py).
use openhands_symphony.Base.{
  ℕ, String, Bool, true, false, not, ◌≡◌, refl, none, some, ◌&&◌, ◌||◌, ◌==◌, string_eq, if_ind,
  Option-cases, ◌⊎◌, inl, inr, arith,
}
use openhands_symphony.Store.Log.{record_delivery, delivery_recorded}
use openhands_symphony.Coordinator.Exec.{World, Outcome, returned, Exec}
use openhands_symphony.Coordinator.Host.{Host}
use openhands_symphony.Scheduler.{Scheduler}
use openhands_symphony.Webhook.{
  Request, Response, refused, duplicate, Payload, Endpoint, on_payload, github_webhook,
}

-- The headers are there, and the signature is the one for the secret.
unfoldable pub is_authentic : Endpoint → Request → Bool
is_authentic e r = elim e.secret [
  | none ↦ false
  | some secret ↦ not (r.event == "" || r.delivery == "") && e.sign secret r.body == r.signature
]

-- The request is answered without an effect but that time passes.
pub record Unmoved (s : Scheduler) (w : World) (answer : Response)
    (r : Outcome (Response × Scheduler) × World) : Type 0 where
  pub answered : r.0 ≡ returned (answer, s)
  pub same_db : r.1.db ≡ w.db
  pub same_sent : r.1.sent ≡ w.sent

-- The answer is an HTTP error.
abbrev pub Refused : Scheduler → World → Outcome (Response × Scheduler) × World → Type 0
Refused s w r = (status : ℕ) × ((detail : String) × Unmoved s w (refused status detail) r)

module _ (h : Host) (e : Endpoint) (s : Scheduler) (r : Request) (w : World) where
  -- A request without its headers, without a secret on this side, or with a signature that is not the
  -- secret's is answered with an HTTP error, and neither the database nor anything outside changes.
  pub github_webhook-Refused : is_authentic e r ≡ false → Refused s w (github_webhook h e s r w)
  unfolding github_webhook is_authentic
  github_webhook-Refused forged =
      if_ind (λ (m : Exec (Response × Scheduler)). Refused s w (m w))
        (r.event == "" || r.delivery == "") _ _
        (λ _. (400, (_, record { answered = refl; same_db = refl; same_sent = refl })))
        (λ headers. elim (Option-cases e.secret) [
          | inl none_of ↦
              rw none_of (503, (_, record { answered = refl; same_db = refl; same_sent = refl }))
          | inr (secret, some_of) ↦
              let wrong : (e.sign secret r.body == r.signature) ≡ false =
                let failed = rw (some_of, is_authentic) at forged in
                ground (arith, failed, headers) in
              rw (some_of, wrong)
                (401, (_, record { answered = refl; same_db = refl; same_sent = refl }))
        ])

  abbrev NoEffect : Exec (Response × Scheduler) → Type 0
  NoEffect m = Refused s w (m w) ⊎ Unmoved s w duplicate (m w)

  on_payload-NoEffect :
      (payload : Payload)
      → delivery_recorded r.delivery w.db ≡ true
      → NoEffect (on_payload h e s r payload)
  unfolding on_payload record_delivery delivery_recorded
  on_payload-NoEffect payload known =
      inr (rw known (record { answered = refl; same_db = refl; same_sent = refl }))

  -- A delivery that is recorded already is answered as a duplicate or with an HTTP error: neither the
  -- database nor anything outside changes, so that a replay has no effect.
  pub github_webhook-replay :
      delivery_recorded r.delivery w.db ≡ true
      → Refused s w (github_webhook h e s r w) ⊎ Unmoved s w duplicate (github_webhook h e s r w)
  unfolding github_webhook
  github_webhook-replay known =
      if_ind NoEffect (r.event == "" || r.delivery == "") _ _
        (λ _. inl (400, (_, record { answered = refl; same_db = refl; same_sent = refl })))
        (λ _. elim (Option-cases e.secret) [
          | inl none_of ↦
              rw none_of
                (inl (503, (_, record { answered = refl; same_db = refl; same_sent = refl })))
          | inr (secret, some_of) ↦ rw some_of (
              if_ind NoEffect (not (e.sign secret r.body == r.signature)) _ _
                (λ _. inl (401, (_, record { answered = refl; same_db = refl; same_sent = refl })))
                (λ _. elim (Option-cases (e.loads r.body)) [
                  | inl invalid ↦
                      rw invalid (
                        inl
                          (400, (_, record { answered = refl; same_db = refl; same_sent = refl })))
                  | inr (payload, valid) ↦ rw valid (on_payload-NoEffect payload known)
                ]))
        ])
