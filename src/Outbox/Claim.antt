-- ===== src/Outbox/Claim.antt =====
-- server/services/webhooks.ts: which deliveries are due, the lease of one, and what becomes of a lease
-- that expires or whose endpoint is disabled.
use opencoi.Base.{
  ℕ, ◌+◌, ◌-◌, ◌*◌, Bool, false, ◌&&◌, Option, none, some, List, leb, ltb, ◌==◌, if◌then◌else◌,
  ◌>>=◌, Text, text_eq, codes, filter, find, take, length, update_where, compare, Ordering,
}
use opencoi.Base.Sort.{sort, or_else, compare_texts}
use opencoi.Outbox.{
  WebhookEndpointRow, DomainEventRow, WebhookDeliveryRow, Database, pending, processing, failed,
  dead_letter, is_active, is_processing_delivery, awaits_attempt, is_endpoint, is_delivery,
  is_event, webhook_endpoint_is_active,
}
use opencoi.Outbox.Feed.{clamp_limit}

abbrev pub max_attempts : ℕ
max_attempts = 8

-- Five minutes.
abbrev pub stale_claim_ms : ℕ
stale_claim_ms = 5 * 60 * 1000

-- `status = 'processing' AND claimed_at < ?`
unfoldable pub is_stale : ℕ → WebhookDeliveryRow → Bool
is_stale stale_before d =
    is_processing_delivery d.status
    && elim d.claimed_at [ none ↦ false | some t ↦ ltb t stale_before ]

unfoldable pub recovered_row : ℕ → WebhookDeliveryRow → WebhookDeliveryRow
recovered_row at d = record d {
  status = if leb max_attempts d.attempt_count then dead_letter else failed;
  claim_token = none;
  claimed_at = none;
  error_message = some (codes "Delivery claim expired before completion");
  next_attempt_at = at;
  updated_at = at;
}

-- The database after it, and how many deliveries became dead letters.
unfoldable pub recover_stale_deliveries : ℕ → Database → Database × ℕ
recover_stale_deliveries now db =
    let stale_before = now - stale_claim_ms in
    (
      record db {
        webhook_deliveries =
            (update_where (is_stale stale_before) (recovered_row now) db.webhook_deliveries).0;
      },
      length (
          filter
            (λ (d : WebhookDeliveryRow).
              is_stale stale_before d && leb max_attempts d.attempt_count)
            db.webhook_deliveries),
    )

-- `WHERE` of the candidates and of the claim. The id of an endpoint stands once, so that the join
-- with the endpoints is a test.
unfoldable pub is_delivery_due : List WebhookEndpointRow → ℕ → WebhookDeliveryRow → Bool
is_delivery_due endpoints at d =
    awaits_attempt d.status
    && leb d.next_attempt_at at
    && ltb d.attempt_count max_attempts
    && webhook_endpoint_is_active endpoints d.organization_id d.endpoint_id

-- `ORDER BY next_attempt_at, created_at, id`
unfoldable pub compare_deliveries : WebhookDeliveryRow → WebhookDeliveryRow → Ordering
compare_deliveries l r =
    or_else (compare l.next_attempt_at r.next_attempt_at)
      (or_else (compare l.created_at r.created_at) (compare_texts l.id r.id))

-- The organization and the id of each candidate are read of it alone.
unfoldable pub due_delivery_candidates : ℕ → ℕ → Database → List WebhookDeliveryRow
due_delivery_candidates now limit db = take (clamp_limit limit 100) (
    sort compare_deliveries
      (filter (is_delivery_due db.webhook_endpoints now) db.webhook_deliveries))

pub record ClaimedDeliveryRow : Type 0 where
  pub id : Text
  pub organization_id : Text
  pub endpoint_id : Text
  pub attempt_count : ℕ
  pub claim_token : Text
  pub endpoint_url : Text
  pub signing_secret_ciphertext : Text
  pub event : DomainEventRow

unfoldable pub leased_row : Text → ℕ → WebhookDeliveryRow → WebhookDeliveryRow
leased_row claim_token at d = record d {
  status = processing;
  attempt_count = d.attempt_count + 1;
  claim_token = some claim_token;
  claimed_at = some at;
  updated_at = at;
}

-- `claim_token = ?`
unfoldable pub has_token : Text → WebhookDeliveryRow → Bool
has_token claim_token d = elim d.claim_token [ none ↦ false | some t ↦ text_eq t claim_token ]

-- The row that the `SELECT` after the update gives.
unfoldable pub load_claimed : Text → Text → Text → Database → Option ClaimedDeliveryRow
load_claimed organization_id id claim_token db =
    find
      (λ (d : WebhookDeliveryRow).
        is_delivery organization_id id d
        && has_token claim_token d
        && is_processing_delivery d.status)
      db.webhook_deliveries
    >>= λ d.
        find
          (λ (w : WebhookEndpointRow).
            is_endpoint d.organization_id d.endpoint_id w && is_active w.status)
          db.webhook_endpoints
        >>= λ w. find (is_event d.organization_id d.event_id) db.domain_events >>= λ e.
            some (record {
              id = d.id;
              organization_id = d.organization_id;
              endpoint_id = d.endpoint_id;
              attempt_count = d.attempt_count;
              claim_token = claim_token;
              endpoint_url = w.url;
              signing_secret_ciphertext = w.signing_secret_ciphertext;
              event = e;
            })

pub data ClaimResult : Type 0 where
  granted : ClaimedDeliveryRow → ClaimResult
  refused claim_throws : ClaimResult

-- A claim that throws is rolled back.
abbrev pub commit_claim :
    Bool → Option ClaimedDeliveryRow → Database → Database → Database × ClaimResult
commit_claim changed (some row) before after = (after, if changed then granted row else refused)
commit_claim changed none before after =
    if changed then (before, claim_throws) else (after, refused)

unfoldable pub claim_delivery : Text → Text → Text → ℕ → Database → Database × ClaimResult
claim_delivery organization_id id claim_token at db =
    let changed =
      update_where
        (λ (d : WebhookDeliveryRow).
          is_delivery organization_id id d && is_delivery_due db.webhook_endpoints at d)
        (leased_row claim_token at) db.webhook_deliveries in
    let after = record db { webhook_deliveries = changed.0 } in
    commit_claim (length changed.1 == 1) (load_claimed organization_id id claim_token after) db
      after

unfoldable pub released_row : ℕ → WebhookDeliveryRow → WebhookDeliveryRow
released_row at d = record d {
  status = if ltb 1 d.attempt_count then failed else pending;
  attempt_count = d.attempt_count - 1;
  claim_token = none;
  claimed_at = none;
  updated_at = at;
}

-- `organization_id = ? AND id = ? AND claim_token = ?`
unfoldable pub holds : ClaimedDeliveryRow → WebhookDeliveryRow → Bool
holds row d = is_delivery row.organization_id row.id d && has_token row.claim_token d

unfoldable pub release_disabled_claim : ClaimedDeliveryRow → ℕ → Database → Database × Bool
release_disabled_claim row now db =
    let changed =
      update_where (λ (d : WebhookDeliveryRow). holds row d && is_processing_delivery d.status)
        (released_row now) db.webhook_deliveries in
    (record db { webhook_deliveries = changed.0 }, length changed.1 == 1)
