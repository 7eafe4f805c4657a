-- ===== src/Outbox.antt =====
-- The transactional outbox: server/services/domainEvents.ts and the deliveries of
-- server/services/webhooks.ts, over the tables of server/services/integrationSchema.ts. A time is the
-- number of milliseconds of its ISO text, whose order is the order of the texts; a JSON column is what
-- its text stands for.
pub mod Publish
pub mod Feed
pub mod Endpoints
pub mod Claim
pub mod Batch
pub mod Steps
pub mod Sound
pub mod Keys
pub mod Granted
pub mod Fencing
pub mod Refines
pub mod Final
pub mod Due
pub mod Progress
pub mod Numbers
pub mod Pages
pub mod FanOut
pub mod Bounds
pub mod Sending
mod Examples
use opencoi.Base.{ℕ, ◌≤◌, Bool, true, false, ◌&&◌, Option, List, Text, text_eq, any}

pub data EndpointStatus : Type 0 where
  active disabled : EndpointStatus

pub record WebhookEndpointRow : Type 0 where
  pub id : Text
  pub organization_id : Text
  pub url : Text
  pub description : Option Text
  pub event_types : List Text
  pub signing_secret_ciphertext : Text
  pub status : EndpointStatus
  pub created_by_user_id : Option Text
  pub created_at : ℕ
  pub updated_at : ℕ

pub data ActorType : Type 0 where
  user service_account system : ActorType

-- The payload is its JSON text.
pub record DomainEventRow : Type 0 where
  pub id : Text
  pub organization_id : Text
  pub sequence_number : ℕ
  pub type : Text
  pub resource_type : Text
  pub resource_id : Option Text
  pub payload_json : Text
  pub actor_type : ActorType
  pub actor_id : Option Text
  pub occurred_at : ℕ

pub data DeliveryStatus : Type 0 where
  pending processing succeeded failed dead_letter : DeliveryStatus

pub record WebhookDeliveryRow : Type 0 where
  pub id : Text
  pub organization_id : Text
  pub endpoint_id : Text
  pub event_id : Text
  pub status : DeliveryStatus
  pub attempt_count : ℕ
  pub next_attempt_at : ℕ
  pub claim_token : Option Text
  pub claimed_at : Option ℕ
  pub response_status : Option ℕ
  pub response_body_excerpt : Option Text
  pub error_message : Option Text
  pub delivered_at : Option ℕ
  pub created_at : ℕ
  pub updated_at : ℕ

pub record Database : Type 0 where
  pub webhook_endpoints : List WebhookEndpointRow
  pub domain_events : List DomainEventRow
  pub webhook_deliveries : List WebhookDeliveryRow

abbrev pub is_active : EndpointStatus → Bool
is_active active = true
is_active disabled = false

abbrev pub is_processing_delivery : DeliveryStatus → Bool
is_processing_delivery processing = true
is_processing_delivery _ = false

-- `status IN ('pending', 'failed')`
abbrev pub awaits_attempt : DeliveryStatus → Bool
awaits_attempt pending = true
awaits_attempt failed = true
awaits_attempt _ = false

-- `status IN ('failed', 'dead_letter')`
abbrev pub is_replayable : DeliveryStatus → Bool
is_replayable failed = true
is_replayable dead_letter = true
is_replayable _ = false

abbrev pub is_endpoint : Text → Text → WebhookEndpointRow → Bool
is_endpoint organization_id id e = text_eq e.organization_id organization_id && text_eq e.id id

abbrev pub is_delivery : Text → Text → WebhookDeliveryRow → Bool
is_delivery organization_id id d = text_eq d.organization_id organization_id && text_eq d.id id

abbrev pub is_event : Text → Text → DomainEventRow → Bool
is_event organization_id id e = text_eq e.organization_id organization_id && text_eq e.id id

-- `SELECT 1 FROM webhook_endpoints WHERE organization_id = ? AND id = ? AND status = 'active'`
unfoldable pub webhook_endpoint_is_active : List WebhookEndpointRow → Text → Text → Bool
webhook_endpoint_is_active endpoints organization_id endpoint_id =
    any
      (λ (e : WebhookEndpointRow). is_endpoint organization_id endpoint_id e && is_active e.status)
      endpoints
