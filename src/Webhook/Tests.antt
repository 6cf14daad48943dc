-- ===== src/Webhook/Tests.antt =====
-- The theorems on src/symphony/webhook.py at concrete requests.
use openhands_symphony.Base.{true, false, ◌≡◌, refl, ◌⊎◌, none, some, [], ◌∷◌, string_eq, any}
use openhands_symphony.Store.Log.{delivery_recorded}
use openhands_symphony.Store.Control.{pause}
use openhands_symphony.Coordinator.Exec.{World}
use openhands_symphony.Coordinator.Samples.{host, queued_world}
use openhands_symphony.Scheduler.{Scheduler}
use openhands_symphony.Webhook.{Request, Endpoint, duplicate, github_webhook}
use openhands_symphony.Webhook.Refusal.{
  is_authentic, Refused, Unmoved, github_webhook-Refused, github_webhook-replay,
}

abbrev endpoint : Endpoint
endpoint = record {
  secret = some "secret";
  sign = λ secret body. "sha256=1";
  digest = λ body. body;
  loads = λ body. some (record {
    full_name = some "octo/app";
    number = some 7;
    action = some "labeled";
    comment = none;
  });
  upper = λ text. text;
  command_of = λ word. pause;
  done = λ id. true;
  now = 100;
}

abbrev scheduler : Scheduler
scheduler = record { owner = "scheduler:1"; futures = []; last_reconcile = 0 }

abbrev forged : Request
forged = record { event = "issues"; delivery = "d-1"; signature = "sha256=2"; body = "{}" }

abbrev signed : Request
signed = record forged { signature = "sha256=1" }

is_forged : is_authentic endpoint forged ≡ false
unfolding is_authentic
is_forged = refl

github_webhook-Refused_example :
    Refused scheduler queued_world (github_webhook host endpoint scheduler forged queued_world)
github_webhook-Refused_example =
    github_webhook-Refused host endpoint scheduler forged queued_world is_forged

abbrev delivered : World
delivered = record queued_world {
  db = record queued_world.db {
    deliveries =
        (record {
          delivery_id = "d-1";
          event_name = "issues";
          repository = some "octo/app";
          issue_number = some 7;
          received_at = 90;
          payload_hash = "{}";
        })
        ∷ [];
  };
}

is_delivered : delivery_recorded signed.delivery delivered.db ≡ true
unfolding delivery_recorded any
is_delivered = refl

github_webhook-replay_example :
    Refused scheduler delivered (github_webhook host endpoint scheduler signed delivered)
    ⊎ Unmoved scheduler delivered duplicate
        (github_webhook host endpoint scheduler signed delivered)
github_webhook-replay_example =
    github_webhook-replay host endpoint scheduler signed delivered is_delivered
