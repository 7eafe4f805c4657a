-- ===== src/Outbox/Publish.antt =====
-- server/services/domainEvents.ts: an event is appended and fanned out to the endpoints that match it.
use opencoi.Base.{
  arith, ◌≡◌, ℕ, ◌+◌, Bool, true, false, not, ◌&&◌, ◌||◌, Option, none, some, List, [], ◌∷◌, leb,
  ltb, ◌==◌, if◌then◌else◌, ◌>>=◌, Text, text_eq, codes, filter, any, length, is_digit,
}
use opencoi.Outbox.{
  WebhookEndpointRow, DomainEventRow, WebhookDeliveryRow, Database, ActorType, pending, is_active,
}

abbrev pub is_lower : ℕ → Bool
is_lower c = leb 97 c && leb c 122

-- `[a-z0-9_]`
unfoldable pub is_word : ℕ → Bool
unfolding is_digit
is_word c = is_lower c || is_digit c || c == 95

abbrev pub first_is_lower : Text → Bool
first_is_lower [] = false
first_is_lower (c ∷ s) = is_lower c

-- `[a-z0-9_]*(?:\.[a-z][a-z0-9_]*)*$`, and whether a dot was met.
unfoldable pub event_type_rest : Bool → Text → Bool
event_type_rest dotted [] = dotted
event_type_rest dotted (c ∷ s) =
    if c == 46
    then first_is_lower s && event_type_rest true s
    else is_word c && event_type_rest dotted s

-- `/^[a-z][a-z0-9_]*(?:\.[a-z][a-z0-9_]*)+$/`
unfoldable pub is_event_type : Text → Bool
is_event_type s = first_is_lower s && event_type_rest false s

abbrev pub all_words : Text → Bool
unfolding is_word
all_words s = not (any (λ c. not (is_word c)) s)

-- `/^[a-z][a-z0-9_]{0,79}$/`
unfoldable pub is_resource_type : Text → Bool
is_resource_type s = first_is_lower s && all_words s && leb (length s) 80

-- The input, with its defaults: a random id, the clock and the JSON of the data.
pub record PublishInput : Type 0 where
  pub organization_id : Text
  pub type : Text
  pub resource_type : Text
  pub resource_id : Option Text
  pub payload_json : Text
  pub actor_type : ActorType
  pub actor_id : Option Text
  pub at : ℕ
  pub id : Text

-- `COALESCE(MAX(sequence_number), 0)` of an organization
unfoldable pub last_sequence : Text → List DomainEventRow → ℕ
last_sequence organization_id [] = 0
last_sequence organization_id (e ∷ es) =
    let rest = last_sequence organization_id es in
    if text_eq e.organization_id organization_id && ltb rest e.sequence_number
    then e.sequence_number
    else rest

unfoldable pub new_domain_event : PublishInput → List DomainEventRow → DomainEventRow
new_domain_event input events = record {
  id = input.id;
  organization_id = input.organization_id;
  sequence_number = last_sequence input.organization_id events + 1;
  type = input.type;
  resource_type = input.resource_type;
  resource_id = input.resource_id;
  payload_json = input.payload_json;
  actor_type = input.actor_type;
  actor_id = input.actor_id;
  occurred_at = input.at;
}

-- A row of the table with the keys of a new one, or a type that its `CHECK` refuses.
unfoldable pub refuses_event : DomainEventRow → List DomainEventRow → Bool
refuses_event new events =
    any
      (λ (e : DomainEventRow).
        text_eq e.id new.id
        || text_eq e.organization_id new.organization_id
          && e.sequence_number == new.sequence_number)
      events
    || not (leb 3 (length new.type) && leb (length new.type) 160)

-- `json_each.value IN ('*', ?)` of one of its types
unfoldable pub matches_type : Text → WebhookEndpointRow → Bool
matches_type type e = any (λ t. text_eq t (codes "*") || text_eq t type) e.event_types

unfoldable pub is_target : Text → Text → WebhookEndpointRow → Bool
is_target organization_id type e =
    text_eq e.organization_id organization_id && is_active e.status && matches_type type e

-- A new delivery to an endpoint, whose id is random.
unfoldable pub new_delivery :
    PublishInput → (WebhookEndpointRow → Text) → WebhookEndpointRow → WebhookDeliveryRow
new_delivery input new_id e = record {
  id = new_id e;
  organization_id = e.organization_id;
  endpoint_id = e.id;
  event_id = input.id;
  status = pending;
  attempt_count = 0;
  next_attempt_at = input.at;
  claim_token = none;
  claimed_at = none;
  response_status = none;
  response_body_excerpt = none;
  error_message = none;
  delivered_at = none;
  created_at = input.at;
  updated_at = input.at;
}

-- Two rows with the same key of a `UNIQUE`.
unfoldable pub same_delivery : WebhookDeliveryRow → WebhookDeliveryRow → Bool
same_delivery new d =
    text_eq d.id new.id
    || text_eq d.organization_id new.organization_id
      && text_eq d.endpoint_id new.endpoint_id
      && text_eq d.event_id new.event_id

-- `INSERT ... SELECT` of the deliveries to some endpoints, in order; a key that is taken fails it.
unfoldable pub insert_deliveries :
    PublishInput
    → (WebhookEndpointRow → Text)
    → List WebhookEndpointRow
    → List WebhookDeliveryRow
    → Option (List WebhookDeliveryRow)
insert_deliveries input new_id [] deliveries = some deliveries
insert_deliveries input new_id (e ∷ es) deliveries =
    if any (same_delivery (new_delivery input new_id e)) deliveries
    then none
    else insert_deliveries input new_id es (new_delivery input new_id e ∷ deliveries)

-- The database after it and the new event, `none` where it throws: the transaction of its caller is
-- rolled back then.
unfoldable pub publish_domain_event :
    PublishInput → (WebhookEndpointRow → Text) → Database → Option (Database × DomainEventRow)
publish_domain_event input new_id db =
    let event = new_domain_event input db.domain_events in
    if not (is_event_type input.type)
      || not (is_resource_type input.resource_type)
      || refuses_event event db.domain_events
    then none
    else insert_deliveries input new_id
        (filter (is_target input.organization_id input.type) db.webhook_endpoints)
        db.webhook_deliveries
      >>= λ deliveries. some (
        record db { domain_events = event ∷ db.domain_events; webhook_deliveries = deliveries },
        event,
      )

-- How an event is published: its types are valid, its keys are free, and the deliveries to the
-- endpoints that match are inserted.
pub record IsPublished (input : PublishInput) (new_id : WebhookEndpointRow → Text)
    (before after : Database) (event : DomainEventRow) : Type 0 where
  pub event_type : is_event_type input.type ≡ true
  pub resource_type : is_resource_type input.resource_type ≡ true
  pub free : refuses_event event before.domain_events ≡ false
  pub appended : event ≡ new_domain_event input before.domain_events
  pub events : after.domain_events ≡ event ∷ before.domain_events
  pub endpoints : after.webhook_endpoints ≡ before.webhook_endpoints
  pub deliveries :
      insert_deliveries input new_id
        (filter (is_target input.organization_id input.type) before.webhook_endpoints)
        before.webhook_deliveries
      ≡ some after.webhook_deliveries

pub publish_domain_event-IsPublished :
    (input : PublishInput) (new_id : WebhookEndpointRow → Text) (before after : Database)
    (event : DomainEventRow)
    → publish_domain_event input new_id before ≡ some (after, event)
    → IsPublished input new_id before after event
unfolding publish_domain_event
publish_domain_event-IsPublished input new_id before after event e = ground arith
