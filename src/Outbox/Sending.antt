-- ===== src/Outbox/Sending.antt =====
-- server/services/webhooks.ts: when a request leaves, and to where.
use opencoi.Base.{
  ℕ, ◌+◌, ◌≤◌, ◌<◌, ◌≡◌, refl, sym, ap, subst, ◌∙◌, Bool, true, false, some, List, arith, Text,
  ◌&&◌, update_where-changed, AtMostOne-only, All-Memᴰ, Memᴰ-update_where_changed,
}
use mathlib.Core.List.{Memᴰ}
use opencoi.Webhooks.{
  Url, Address, LookupAddress, PublicWebhookTarget, resolve_public_webhook_target,
  is_public_webhook_address,
}
use opencoi.Webhooks.Target.{resolve_public_webhook_target-public}
use opencoi.Outbox.{
  WebhookDeliveryRow, Database, is_delivery, webhook_endpoint_is_active, WebhookEndpointRow,
  is_endpoint, is_event, is_active,
}
use opencoi.Outbox.Claim.{ClaimedDeliveryRow, granted, claim_delivery, leased_row, is_delivery_due}
use opencoi.Outbox.Batch.{
  Attempt, Settled, resolved, rejected, after_resolution, after_decryption, try_delivery,
}
use opencoi.Outbox.Keys.{IsKeyed, IsKeyed-AtMostOne}
use opencoi.Outbox.Granted.{
  leased, leased-IsKeyed, claim_delivery-leased, commit_claim-granted, IsLoaded-key,
}

-- The calls of an attempt resolve a URL by the guard, without HTTP, whatever the URL parser and the
-- lookup answer.
pub record IsGuardedBy (parse : Text → Url) (host : Text → Address)
    (lookup : Text → List LookupAddress) (a : Attempt) : Type 0 where
  pub guard :
      (value : Text) (t : PublicWebhookTarget)
      → a.resolve_target value ≡ resolved t
      → resolve_public_webhook_target false (parse value) (host value) (lookup value) ≡ some t

-- What holds when a request of an attempt leaves for a target.
pub record IsSafe (parse : Text → Url) (timeout : ℕ) (a : Attempt) (row : ClaimedDeliveryRow)
    (db : Database) (t : PublicWebhookTarget) : Type 0 where
  pub active :
      webhook_endpoint_is_active
        (a.during_resolution db).webhook_endpoints
        row.organization_id
        row.endpoint_id
      ≡ true
  pub in_time : a.elapsed_ms < timeout
  pub public_address : is_public_webhook_address t.address ≡ true
  pub url : t.url ≡ parse row.endpoint_url

module _ (parse : Text → Url) (host : Text → Address) (lookup : Text → List LookupAddress)
    (timeout : ℕ) (a : Attempt) (g : IsGuardedBy parse host lookup a) where
  after_resolution-IsSafe :
      (row : ClaimedDeliveryRow) (secret : Text) (s : Settled PublicWebhookTarget) (db : Database)
      (t : PublicWebhookTarget)
      → a.resolve_target row.endpoint_url ≡ s
      → (after_resolution timeout a row secret s (a.during_resolution db)).2 ≡ some t
      → IsSafe parse timeout a row db t
  unfolding after_resolution
  after_resolution-IsSafe row secret (rejected message) db t q e = ground arith
  after_resolution-IsSafe row secret (resolved u) db t q e =
      let (url, _, _, public_address, _) =
        resolve_public_webhook_target-public false _ _ _ u (g.guard row.endpoint_url u q) in
      let u_is : u ≡ t = ground arith in
      record {
        active = ground arith;
        in_time = ground arith;
        public_address = ground (arith, public_address);
        url = ap (λ x. x.url) (sym u_is) ∙ url;
      }

  try_delivery-IsSafe :
      (row : ClaimedDeliveryRow) (db : Database) (t : PublicWebhookTarget)
      → (try_delivery timeout a row db).2 ≡ some t
      → IsSafe parse timeout a row db t
  unfolding try_delivery
  try_delivery-IsSafe row db t e = by_secret (a.decrypt_secret row.signing_secret_ciphertext) e
    where
      by_secret :
          (s : Settled Text)
          → (after_decryption timeout a row s db).2 ≡ some t
          → IsSafe parse timeout a row db t
      by_secret (rejected message) q = ground arith
      by_secret (resolved secret) q = after_resolution-IsSafe row secret _ db t refl q

-- The one delivery that a claim leases was due, and its row names the endpoint and the event of it.
pub record WasDue (o id : Text) (at : ℕ) (db : Database) (row : ClaimedDeliveryRow) : Type 0 where
  pub delivery : WebhookDeliveryRow
  pub there : Memᴰ delivery db.webhook_deliveries
  pub is_it : is_delivery o id delivery ≡ true
  pub due : is_delivery_due db.webhook_endpoints at delivery ≡ true
  pub attempt : row.attempt_count ≡ delivery.attempt_count + 1
  pub endpoint : row.endpoint_id ≡ delivery.endpoint_id
  pub at_most_eight : row.attempt_count ≤ 8
  pub row_is : (row.organization_id ≡ o) × (row.id ≡ id)
  pub receiver : WebhookEndpointRow
  pub receiver_there : Memᴰ receiver db.webhook_endpoints
  pub receiver_is : is_endpoint o delivery.endpoint_id receiver ≡ true
  pub receiver_active : is_active receiver.status ≡ true
  pub receiver_url : row.endpoint_url ≡ receiver.url
  pub event_there : Memᴰ row.event db.domain_events
  pub event_is : is_event o delivery.event_id row.event ≡ true

leases : Text → Text → ℕ → Database → WebhookDeliveryRow → Bool
leases o id at db d = is_delivery o id d && is_delivery_due db.webhook_endpoints at d

some_leased :
    (o id token : Text) (at : ℕ) (db : Database) (row : ClaimedDeliveryRow)
    → (claim_delivery o id token at db).1 ≡ granted row
    → (d : WebhookDeliveryRow) × Memᴰ d db.webhook_deliveries × (leases o id at db d ≡ true)
unfolding claim_delivery leases
some_leased o id token at db row e =
    let (changed, _, _) = commit_claim-granted _ _ db (leased o id token at db) row e in
    update_where-changed _ (leased_row token at) db.webhook_deliveries {n = 0}
      (ground (arith, changed))

due_few :
    (db : Database) (at : ℕ) (d : WebhookDeliveryRow)
    → is_delivery_due db.webhook_endpoints at d ≡ true
    → d.attempt_count < 8
unfolding is_delivery_due
due_few db at d h = ground arith

claim_delivery-WasDue :
    (o id token : Text) (at : ℕ) (db : Database) (row : ClaimedDeliveryRow)
    → IsKeyed db
    → (claim_delivery o id token at db).1 ≡ granted row
    → WasDue o id at db row
unfolding leases leased_row
claim_delivery-WasDue o id token at db row k e =
    let (_, l) = claim_delivery-leased o id token at db row e in
    let (d, m, q) = some_leased o id token at db row e in
    let loaded_is : l.delivery ≡ leased_row token at d =
      All-Memᴰ (λ x. is_delivery o id x ≡ true → x ≡ leased_row token at d) _
        (AtMostOne-only (is_delivery o id) _ (leased_row token at d)
          (IsKeyed-AtMostOne o id (leased o id token at db) (leased-IsKeyed o id token at db k))
          (Memᴰ-update_where_changed _ (leased_row token at) db.webhook_deliveries d q m)
          (ground arith))
        l.delivery_there l.delivery_is in
    let next : row.attempt_count ≡ d.attempt_count + 1 =
      l.row_attempt ∙ ap (λ x. x.attempt_count) loaded_is in
    let key = IsLoaded-key o id token _ row l in
    let organization : d.organization_id ≡ o =
      ap (λ x. x.organization_id) (sym loaded_is) ∙ (sym l.row_organization ∙ key.0) in
    record {
      delivery = d;
      there = m;
      is_it = ground arith;
      due = ground arith;
      attempt = next;
      endpoint = l.row_endpoint ∙ ap (λ x. x.endpoint_id) loaded_is;
      at_most_eight = omega (arith, next, due_few db at d (ground arith));
      row_is = key;
      receiver = l.endpoint;
      receiver_there = l.endpoint_there;
      receiver_is =
          subst (λ y. is_endpoint y d.endpoint_id l.endpoint ≡ true) organization
            (subst (λ x. is_endpoint x.organization_id x.endpoint_id l.endpoint ≡ true) loaded_is
              l.endpoint_is);
      receiver_active = l.endpoint_active;
      receiver_url = l.row_url;
      event_there = l.event_there;
      event_is =
          subst (λ y. is_event y d.event_id row.event ≡ true) organization
            (subst (λ x. is_event x.organization_id x.event_id row.event ≡ true) loaded_is
              l.event_is);
    }

-- A request leaves only for a delivery that was due when it was claimed, for the attempt after its last
-- one and the eighth at most, and with its event; its endpoint, which stands in the table, was active
-- when the delivery was claimed and is active still when the request leaves, before the deadline, and
-- the target is a public address for the URL that the table has for the endpoint, where the target is
-- resolved by the guard and no two deliveries share a key.
pub try_delivery_when_due :
    (parse : Text → Url) (host : Text → Address) (lookup : Text → List LookupAddress) (timeout : ℕ)
    (a : Attempt) (o id : Text) (db : Database) (row : ClaimedDeliveryRow) (t : PublicWebhookTarget)
    → IsGuardedBy parse host lookup a
    → IsKeyed db
    → (claim_delivery o id a.claim_token a.attempt_at db).1 ≡ granted row
    → (try_delivery timeout a row (claim_delivery o id a.claim_token a.attempt_at db).0).2 ≡ some t
    → (claimed : WasDue o id a.attempt_at db row) × IsSafe parse timeout a row
        (claim_delivery o id a.claim_token a.attempt_at db).0
        t
      × (t.url ≡ parse claimed.receiver.url)
try_delivery_when_due parse host lookup timeout a o id db row t g k e q =
    let claimed = claim_delivery-WasDue o id a.claim_token a.attempt_at db row k e in
    let safe = try_delivery-IsSafe parse host lookup timeout a g row _ t q in
    (claimed, safe, safe.url ∙ ap parse claimed.receiver_url)
