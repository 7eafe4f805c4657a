-- ===== src/Outbox/Endpoints.antt =====
-- server/services/webhooks.ts: the administration of endpoints and of their deliveries.
use opencoi.Base.{
  ℕ, Bool, not, ◌&&◌, ◌||◌, Option, none, some, List, ◌∷◌, leb, ◌==◌, if◌then◌else◌, Text, text_eq,
  codes, any, length, trim, truthy, update_where,
}
use opencoi.Base.Sort.{sorted_set}
use opencoi.Outbox.{
  WebhookEndpointRow, WebhookDeliveryRow, Database, EndpointStatus, active, pending, is_replayable,
  is_endpoint, is_delivery,
}
use opencoi.Outbox.Publish.{is_event_type}

unfoldable pub normalized_event_types : List Text → List Text
normalized_event_types types = sorted_set types

unfoldable pub are_valid_event_types : List Text → Bool
are_valid_event_types types =
    not (length types == 0)
    && leb (length types) 100
    && not (any (λ t. not (text_eq t (codes "*")) && not (is_event_type t)) types)

-- The input, with the random id and the ciphertext of the random secret.
pub record EndpointInput : Type 0 where
  pub organization_id : Text
  pub url : Text
  pub event_types : List Text
  pub description : Option Text
  pub created_by_user_id : Option Text
  pub at : ℕ
  pub id : Text
  pub signing_secret_ciphertext : Text

-- `description?.trim() || null`
abbrev pub trimmed_or_null : Option Text → Option Text
trimmed_or_null none = none
trimmed_or_null (some s) = if truthy (trim s) then some (trim s) else none

unfoldable pub new_endpoint : EndpointInput → WebhookEndpointRow
new_endpoint input = record {
  id = input.id;
  organization_id = input.organization_id;
  url = input.url;
  description = trimmed_or_null input.description;
  event_types = normalized_event_types input.event_types;
  signing_secret_ciphertext = input.signing_secret_ciphertext;
  status = active;
  created_by_user_id = input.created_by_user_id;
  created_at = input.at;
  updated_at = input.at;
}

-- A row of the table with a key of a new one, or a URL that its `CHECK` refuses, whose length is that
-- of code units here and of characters in SQLite.
unfoldable pub refuses_endpoint : WebhookEndpointRow → List WebhookEndpointRow → Bool
refuses_endpoint new endpoints =
    any
      (λ (e : WebhookEndpointRow).
        text_eq e.id new.id
        || text_eq e.organization_id new.organization_id && text_eq e.url new.url)
      endpoints
    || not (leb 8 (length new.url) && leb (length new.url) 2048)

unfoldable pub create_webhook_endpoint : EndpointInput → Database → Option Database
create_webhook_endpoint input db =
    if not (are_valid_event_types (normalized_event_types input.event_types))
      || refuses_endpoint (new_endpoint input) db.webhook_endpoints
    then none
    else some (record db { webhook_endpoints = new_endpoint input ∷ db.webhook_endpoints })

abbrev pub endpoint_with_status : EndpointStatus → ℕ → WebhookEndpointRow → WebhookEndpointRow
endpoint_with_status status at e = record e { status = status; updated_at = at }

unfoldable pub set_webhook_endpoint_status :
    Text → Text → EndpointStatus → ℕ → Database → Database × Bool
set_webhook_endpoint_status organization_id endpoint_id status at db =
    let changed =
      update_where (is_endpoint organization_id endpoint_id) (endpoint_with_status status at)
        db.webhook_endpoints in
    (record db { webhook_endpoints = changed.0 }, length changed.1 == 1)

unfoldable pub replayed_row : ℕ → WebhookDeliveryRow → WebhookDeliveryRow
replayed_row at d = record d {
  status = pending;
  attempt_count = 0;
  next_attempt_at = at;
  claim_token = none;
  claimed_at = none;
  response_status = none;
  response_body_excerpt = none;
  error_message = none;
  delivered_at = none;
  updated_at = at;
}

abbrev pub is_replayed : Text → Text → WebhookDeliveryRow → Bool
is_replayed organization_id delivery_id d =
    is_delivery organization_id delivery_id d && is_replayable d.status

unfoldable pub replay_webhook_delivery : Text → Text → ℕ → Database → Database × Bool
replay_webhook_delivery organization_id delivery_id at db =
    let changed =
      update_where (is_replayed organization_id delivery_id) (replayed_row at)
        db.webhook_deliveries in
    (record db { webhook_deliveries = changed.0 }, length changed.1 == 1)
