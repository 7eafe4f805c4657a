-- ===== src/Outbox/Examples.antt =====
-- An event, its delivery, a batch that fails, and what others do meanwhile.
mod Runs
use mathlib.Core.List.{Memᴰ}
use native.Mathlib.Omega.{arith}
use opencoi.Base.{
  ℕ, ◌+◌, ◌≤◌, ◌≡◌, ◌⊎◌, ◌↔◌, refl, Bool, true, false, Option, none, some, List, [], ◌∷◌, codes,
  Text, text_eq, any, filter, find, take, update_where, length, is_digit, map,
}
use opencoi.Base.Sort.{sort, insert_sorted, compare_texts}
use opencoi.Webhooks.{
  Url, https, Address, ipv4, LookupAddress, PublicWebhookTarget, resolve_public_webhook_target,
  select_target, addresses_of, is_refused, is_public_webhook_address, is_disallowed_ipv4,
}
use opencoi.Outbox.{
  WebhookEndpointRow, DomainEventRow, WebhookDeliveryRow, Database, active, system, succeeded,
  webhook_endpoint_is_active, processing,
}
use opencoi.Outbox.Publish.{
  PublishInput, publish_domain_event, new_domain_event, new_delivery, is_event_type,
  event_type_rest, is_resource_type, is_word, refuses_event, last_sequence, insert_deliveries,
  is_target, matches_type, same_delivery,
}
use opencoi.Outbox.Feed.{list_domain_events, compare_events, is_after, domain_event_from_row}
use opencoi.Outbox.Claim.{
  ClaimedDeliveryRow, ClaimResult, granted, claim_delivery, leased_row, is_delivery_due, has_token,
  holds, load_claimed, recover_stale_deliveries, recovered_row, is_stale, due_delivery_candidates,
  compare_deliveries, release_disabled_claim,
}
use opencoi.Outbox.Batch.{
  Attempt, resolved, WebhookHttpResult, BatchResult, run_webhook_delivery_batch, validated_timeout,
  attempt_candidates, attempt_candidate, finish_attempt, try_delivery, after_resolution,
  complete_delivery, completed_row, count_completed, failed_delivery_row, retry_at,
}

abbrev endpoint : WebhookEndpointRow
endpoint = record {
  id = codes "w1";
  organization_id = codes "o1";
  url = codes "https://a.example/";
  description = none;
  event_types = codes "*" ∷ [];
  signing_secret_ciphertext = codes "s";
  status = active;
  created_by_user_id = none;
  created_at = 0;
  updated_at = 0;
}

abbrev input : PublishInput
input = record {
  organization_id = codes "o1";
  type = codes "vendor.created";
  resource_type = codes "vendor";
  resource_id = some (codes "v1");
  payload_json = codes "{}";
  actor_type = system;
  actor_id = none;
  at = 10;
  id = codes "e1";
}

abbrev new_id : WebhookEndpointRow → Text
new_id e = codes "d1"

abbrev before : Database
before = record { webhook_endpoints = endpoint ∷ []; domain_events = []; webhook_deliveries = [] }

abbrev event : DomainEventRow
event = record {
  id = codes "e1";
  organization_id = codes "o1";
  sequence_number = 1;
  type = codes "vendor.created";
  resource_type = codes "vendor";
  resource_id = some (codes "v1");
  payload_json = codes "{}";
  actor_type = system;
  actor_id = none;
  occurred_at = 10;
}

abbrev delivery : WebhookDeliveryRow
delivery = record {
  id = codes "d1";
  organization_id = codes "o1";
  endpoint_id = codes "w1";
  event_id = codes "e1";
  status = opencoi.Outbox.pending;
  attempt_count = 0;
  next_attempt_at = 10;
  claim_token = none;
  claimed_at = none;
  response_status = none;
  response_body_excerpt = none;
  error_message = none;
  delivered_at = none;
  created_at = 10;
  updated_at = 10;
}

abbrev after : Database
after = record {
  webhook_endpoints = endpoint ∷ [];
  domain_events = event ∷ [];
  webhook_deliveries = delivery ∷ [];
}

publication : publish_domain_event input new_id before ≡ some (after, event)
unfolding publish_domain_event new_domain_event new_delivery is_event_type event_type_rest
    is_resource_type is_word is_digit refuses_event last_sequence insert_deliveries is_target
    matches_type same_delivery any filter text_eq
publication = refl

abbrev url : Url
url = record {
  protocol = https;
  username = [];
  password = [];
  hash = [];
  hostname = codes "a.example";
}

abbrev target : PublicWebhookTarget
target = record { url = url; address = ipv4 93 184 216 34; family = 4 }

abbrev unavailable : WebhookHttpResult
unavailable = record {
  ok = false;
  status = some 503;
  body_excerpt = [];
  error = some (codes "HTTP 503");
}

abbrev attempt : Attempt
attempt = record {
  attempt_at = 20;
  claim_token = codes "t1";
  decrypt_secret = λ s. resolved s;
  resolve_target = λ u. resolved target;
  during_resolution = λ db. db;
  elapsed_ms = 5;
  deliver = λ t e s. resolved unavailable;
  during_delivery = λ db. db;
  completed_at = 30;
}

abbrev attempts : ℕ → Attempt
attempts i = attempt

-- A batch at a time over a database.
batch : ℕ → Database → Database × Option BatchResult
unfolding run_webhook_delivery_batch validated_timeout attempt_candidates attempt_candidate
    finish_attempt try_delivery after_resolution complete_delivery completed_row count_completed
    failed_delivery_row retry_at claim_delivery leased_row is_delivery_due has_token holds
    load_claimed recover_stale_deliveries recovered_row is_stale due_delivery_candidates
    compare_deliveries webhook_endpoint_is_active any filter find take update_where sort
    insert_sorted compare_texts text_eq domain_event_from_row
batch at db = run_webhook_delivery_batch at 20 10000 attempts db

-- The attempt fails, and the next one is a minute after it.
batch_test :
    ((batch 20 after).1
      ≡ some (record { claimed = 1; succeeded = 0; failed = 1; dead_lettered = 0 }))
    × (map (λ (d : WebhookDeliveryRow). d.next_attempt_at) (batch 20 after).0.webhook_deliveries
        ≡ 60030 ∷ [])
    × (map (λ (d : WebhookDeliveryRow). d.attempt_count) (batch 20 after).0.webhook_deliveries
        ≡ 1 ∷ [])
unfolding batch
batch_test = (refl, refl, refl)
