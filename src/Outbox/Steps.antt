-- ===== src/Outbox/Steps.antt =====
-- The changes that the services make to the outbox (server/services/domainEvents.ts, webhooks.ts), by
-- any number of workers in any order.
use opencoi.Base.{ℕ, ◌≡◌, Bool, true, false, some, Text, All}
use opencoi.Outbox.{
  WebhookEndpointRow, DomainEventRow, WebhookDeliveryRow, Database, EndpointStatus,
}
use opencoi.Outbox.Publish.{PublishInput, publish_domain_event}
use opencoi.Outbox.Endpoints.{
  EndpointInput, create_webhook_endpoint, set_webhook_endpoint_status, replay_webhook_delivery,
}
use opencoi.Outbox.Claim.{
  ClaimedDeliveryRow, claim_delivery, holds, release_disabled_claim, recover_stale_deliveries,
}
use opencoi.Outbox.Batch.{WebhookHttpResult, complete_delivery}

-- A delivery that is held by a claim is in the attempt of the claim.
pub record InAttempt (row : ClaimedDeliveryRow) (d : WebhookDeliveryRow) : Type 0 where
  pub attempt : holds row d ≡ true → d.attempt_count ≡ row.attempt_count

-- A step of a service whose claims take no token of a set.
pub data Step (taken : Text → Bool) : Database → Database → Type 0 where
  publishes :
      (input : PublishInput) (new_id : WebhookEndpointRow → Text) (before after : Database)
      (event : DomainEventRow)
      → publish_domain_event input new_id before ≡ some (after, event)
      → Step taken before after
  creates :
      (input : EndpointInput) (before after : Database)
      → create_webhook_endpoint input before ≡ some after
      → Step taken before after
  sets_status :
      (organization_id endpoint_id : Text) (status : EndpointStatus) (at : ℕ) (before : Database)
      → Step taken before
          (set_webhook_endpoint_status organization_id endpoint_id status at before).0
  replays :
      (organization_id delivery_id : Text) (at : ℕ) (before : Database)
      → Step taken before (replay_webhook_delivery organization_id delivery_id at before).0
  recovers :
      (now : ℕ) (before : Database) → Step taken before (recover_stale_deliveries now before).0
  claims :
      (organization_id id claim_token : Text) (at : ℕ) (before : Database)
      → taken claim_token ≡ false
      → Step taken before (claim_delivery organization_id id claim_token at before).0
  releases :
      (row : ClaimedDeliveryRow) (now : ℕ) (before : Database)
      → Step taken before (release_disabled_claim row now before).0
  completes :
      (row : ClaimedDeliveryRow) (result : WebhookHttpResult) (at : ℕ) (before : Database)
      → All (InAttempt row) before.webhook_deliveries
      → Step taken before (complete_delivery row result at before).0

pub data Steps (taken : Text → Bool) : Database → Database → Type 0 where
  done : {db : Database} → Steps taken db db
  after_step : {a b c : Database} → Step taken a b → Steps taken b c → Steps taken a c

pub Steps-trans :
    {taken : Text → Bool} {a b c : Database} → Steps taken a b → Steps taken b c → Steps taken a c
Steps-trans done q = q
Steps-trans (after_step s p) q = after_step s (Steps-trans p q)

-- Fewer tokens are taken than in another set.
abbrev pub Within : (Text → Bool) → (Text → Bool) → Type 0
Within fewer taken = (t : Text) → taken t ≡ false → fewer t ≡ false

Step-Within :
    {fewer taken : Text → Bool} {a b : Database}
    → Within fewer taken
    → Step taken a b
    → Step fewer a b
Step-Within w (publishes input new_id a b event e) = publishes input new_id a b event e
Step-Within w (creates input a b e) = creates input a b e
Step-Within w (sets_status o id s at a) = sets_status o id s at a
Step-Within w (replays o id at a) = replays o id at a
Step-Within w (recovers now a) = recovers now a
Step-Within w (claims o id token at a q) = claims o id token at a (w token q)
Step-Within w (releases row now a) = releases row now a
Step-Within w (completes row result at a k) = completes row result at a k

pub Steps-Within :
    {fewer taken : Text → Bool} {a b : Database}
    → Within fewer taken
    → Steps taken a b
    → Steps fewer a b
Steps-Within w done = done
Steps-Within w (after_step s p) = after_step (Step-Within w s) (Steps-Within w p)
