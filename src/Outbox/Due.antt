-- ===== src/Outbox/Due.antt =====
-- server/services/webhooks.ts: a delivery that is due is leased by a claim of it.
use opencoi.Base.{
  ℕ, ◌+◌, ◌≡◌, refl, ap, Bool, true, some, arith, Text, ◌&&◌, text_eq_refl, any-Memᴰ, find,
  find-eq-some, find_of_Memᴰ, AtMostOne-imp, AtMostOne-only, All-Memᴰ, update_where,
  update_where-one, Memᴰ-update_where_changed, length,
}
use mathlib.Core.List.{Memᴰ}
use opencoi.Outbox.{
  WebhookEndpointRow, DomainEventRow, WebhookDeliveryRow, Database, is_active,
  is_processing_delivery, is_delivery, is_endpoint, is_event, webhook_endpoint_is_active,
}
use opencoi.Outbox.Claim.{
  ClaimedDeliveryRow, granted, claim_delivery, leased_row, is_delivery_due, has_token, load_claimed,
}
use opencoi.Outbox.Keys.{IsKeyed, IsKeyed-AtMostOne}
use opencoi.Outbox.Granted.{leased, leased-IsKeyed}

-- The endpoint of a delivery is active, and its event is there.
pub record CanBeSent (db : Database) (d : WebhookDeliveryRow) : Type 0 where
  pub endpoint :
      webhook_endpoint_is_active db.webhook_endpoints d.organization_id d.endpoint_id ≡ true
  pub event : DomainEventRow
  pub event_there : Memᴰ event db.domain_events
  pub event_is : is_event d.organization_id d.event_id event ≡ true

pub is_delivery_refl : (d : WebhookDeliveryRow) → is_delivery d.organization_id d.id d ≡ true
is_delivery_refl d = ground (arith, text_eq_refl d.organization_id, text_eq_refl d.id)

module _ (db : Database) (d : WebhookDeliveryRow) (token : Text) (at : ℕ) (k : IsKeyed db)
    (m : Memᴰ d db.webhook_deliveries) (c : CanBeSent db d)
    (e : is_delivery_due db.webhook_endpoints at d ≡ true) where
  changed_one :
      length
        (update_where
          (λ (r : WebhookDeliveryRow).
            is_delivery d.organization_id d.id r && is_delivery_due db.webhook_endpoints at r)
          (leased_row token at)
          db.webhook_deliveries).1
      ≡ 1
  changed_one = ap length (
      update_where-one _ (leased_row token at) _ d
        (AtMostOne-imp _ (is_delivery d.organization_id d.id) (λ r h. ground arith) _
          (IsKeyed-AtMostOne d.organization_id d.id db k))
        m (ground (arith, is_delivery_refl d, e)))

  loads_leased :
      (r : WebhookDeliveryRow) × (find
          (λ (x : WebhookDeliveryRow).
            is_delivery d.organization_id d.id x
            && has_token token x
            && is_processing_delivery x.status)
          (leased d.organization_id d.id token at db).webhook_deliveries
        ≡ some r)
  unfolding leased_row has_token
  loads_leased =
      find_of_Memᴰ _ _
        (Memᴰ-update_where_changed _ (leased_row token at) db.webhook_deliveries d
          (ground (arith, is_delivery_refl d, e)) m)
        (ground (arith, is_delivery_refl d, text_eq_refl token))

  -- It is the delivery itself that is loaded.
  loaded_is :
      (r : WebhookDeliveryRow)
      → Memᴰ r (leased d.organization_id d.id token at db).webhook_deliveries
      → is_delivery d.organization_id d.id r ≡ true
      → r ≡ leased_row token at d
  loaded_is r there q =
      All-Memᴰ (λ x. is_delivery d.organization_id d.id x ≡ true → x ≡ leased_row token at d) _
        (AtMostOne-only (is_delivery d.organization_id d.id) _ (leased_row token at d)
          (IsKeyed-AtMostOne d.organization_id d.id (leased d.organization_id d.id token at db)
            (leased-IsKeyed d.organization_id d.id token at db k))
          (Memᴰ-update_where_changed _ (leased_row token at) db.webhook_deliveries d
            (ground (arith, is_delivery_refl d, e)) m)
          (unfold leased_row in (is_delivery_refl d)))
        there q

  abbrev active_endpoint : WebhookEndpointRow → Bool
  active_endpoint w = is_endpoint d.organization_id d.endpoint_id w && is_active w.status

  load_leased :
      (row : ClaimedDeliveryRow) × (load_claimed d.organization_id d.id token
          (leased d.organization_id d.id token at db)
        ≡ some row)
      × (row.attempt_count ≡ d.attempt_count + 1)
  unfolding load_claimed leased_row webhook_endpoint_is_active
  load_leased =
      let (r, p) = loads_leased in
      let (there, q) = find-eq-some _ _ p in
      let r_is = loaded_is r there (ground arith) in
      let (w, wm, wq) = any-Memᴰ active_endpoint db.webhook_endpoints c.endpoint in
      let (v, vp) = find_of_Memᴰ active_endpoint db.webhook_endpoints wm wq in
      let (x, xp) =
        find_of_Memᴰ (is_event d.organization_id d.event_id) db.domain_events c.event_there
          c.event_is in
      (
        record {
          id = d.id;
          organization_id = d.organization_id;
          endpoint_id = d.endpoint_id;
          attempt_count = d.attempt_count + 1;
          claim_token = token;
          endpoint_url = v.url;
          signing_secret_ciphertext = v.signing_secret_ciphertext;
          event = x;
        },
        rw (p, r_is, vp, xp) refl,
        refl,
      )

  -- A due delivery whose id stands once is leased by a claim, for its next attempt.
  pub claim_delivery-due :
      (row : ClaimedDeliveryRow) × ((claim_delivery d.organization_id d.id token at db).1
        ≡ granted row)
      × (row.attempt_count ≡ d.attempt_count + 1)
  unfolding claim_delivery
  claim_delivery-due = let (row, p, q) = load_leased in (row, rw (changed_one, p) refl, q)
