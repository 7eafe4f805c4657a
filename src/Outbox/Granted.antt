-- ===== src/Outbox/Granted.antt =====
-- server/services/webhooks.ts: what a granted claim leaves in the table, and what the steps of others
-- make of it.
use opencoi.Base.{
  ℕ, ◌≡◌, refl, sym, subst, ap, ◌∙◌, Bool, true, Option, some, arith, Text, All, All-imp, ◌&&◌,
  text_eq_sound, some-inj, >>=-eq-some, find-eq-some, AtMostOne-only, update_where,
  update_where-Apart,
}
use mathlib.Core.List.{Memᴰ}
use opencoi.Outbox.{
  WebhookEndpointRow, WebhookDeliveryRow, Database, is_active, is_processing_delivery, is_delivery,
  is_endpoint, is_event,
}
use opencoi.Outbox.Claim.{
  ClaimedDeliveryRow, granted, claim_delivery, commit_claim, leased_row, is_delivery_due, holds,
  has_token, load_claimed,
}
use opencoi.Outbox.Steps.{InAttempt}
use opencoi.Outbox.Publish.{same_delivery}
use opencoi.Outbox.Keys.{IsKeyed, IsKeyed-AtMostOne}

-- What the row of a claim is read from.
pub record IsLoaded (organization_id id claim_token : Text) (db : Database)
    (row : ClaimedDeliveryRow) : Type 0 where
  pub delivery : WebhookDeliveryRow
  pub endpoint : WebhookEndpointRow
  pub delivery_there : Memᴰ delivery db.webhook_deliveries
  pub delivery_is : is_delivery organization_id id delivery ≡ true
  pub holds_it : has_token claim_token delivery ≡ true
  pub in_process : is_processing_delivery delivery.status ≡ true
  pub endpoint_there : Memᴰ endpoint db.webhook_endpoints
  pub endpoint_is : is_endpoint delivery.organization_id delivery.endpoint_id endpoint ≡ true
  pub endpoint_active : is_active endpoint.status ≡ true
  pub event_there : Memᴰ row.event db.domain_events
  pub event_is : is_event delivery.organization_id delivery.event_id row.event ≡ true
  pub row_id : row.id ≡ delivery.id
  pub row_organization : row.organization_id ≡ delivery.organization_id
  pub row_endpoint : row.endpoint_id ≡ delivery.endpoint_id
  pub row_attempt : row.attempt_count ≡ delivery.attempt_count
  pub row_token : row.claim_token ≡ claim_token
  pub row_url : row.endpoint_url ≡ endpoint.url

pub load_claimed-IsLoaded :
    (o id token : Text) (db : Database) (row : ClaimedDeliveryRow)
    → load_claimed o id token db ≡ some row
    → IsLoaded o id token db row
unfolding load_claimed
load_claimed-IsLoaded o id token db row e =
    let (d, p, e') = >>=-eq-some _ _ e in
    let (w, q, e'') = >>=-eq-some _ _ e' in
    let (v, r, e''') = >>=-eq-some _ _ e'' in
    let (dm, dt) = find-eq-some _ _ p in
    let (wm, wt) = find-eq-some _ _ q in
    let (vm, vt) = find-eq-some _ _ r in
    let row_is = some-inj e''' in
    record {
      delivery = d;
      endpoint = w;
      delivery_there = dm;
      delivery_is = ground arith;
      holds_it = ground arith;
      in_process = ground arith;
      endpoint_there = wm;
      endpoint_is = ground arith;
      endpoint_active = ground arith;
      event_there = subst (λ e. Memᴰ e db.domain_events) (ap (λ x. x.event) row_is) vm;
      event_is =
          subst (λ e. is_event d.organization_id d.event_id e ≡ true) (ap (λ x. x.event) row_is) vt;
      row_id = ap (λ x. x.id) (sym row_is);
      row_organization = ap (λ x. x.organization_id) (sym row_is);
      row_endpoint = ap (λ x. x.endpoint_id) (sym row_is);
      row_attempt = ap (λ x. x.attempt_count) (sym row_is);
      row_token = ap (λ x. x.claim_token) (sym row_is);
      row_url = ap (λ x. x.endpoint_url) (sym row_is);
    }

pub commit_claim-granted :
    (changed : Bool) (loaded : Option ClaimedDeliveryRow) (before after : Database)
    (row : ClaimedDeliveryRow)
    → (commit_claim changed loaded before after).1 ≡ granted row
    → (changed ≡ true)
      × (loaded ≡ some row)
      × ((commit_claim changed loaded before after).0 ≡ after)
commit_claim-granted changed loaded before after row e = ground arith

-- The database after a claim that is granted.
abbrev pub leased : Text → Text → Text → ℕ → Database → Database
leased o id token at db = record db {
  webhook_deliveries =
      (update_where
        (λ (d : WebhookDeliveryRow).
          is_delivery o id d && is_delivery_due db.webhook_endpoints at d)
        (leased_row token at) db.webhook_deliveries).0;
}

pub claim_delivery-leased :
    (o id token : Text) (at : ℕ) (db : Database) (row : ClaimedDeliveryRow)
    → (claim_delivery o id token at db).1 ≡ granted row
    → ((claim_delivery o id token at db).0 ≡ leased o id token at db)
      × IsLoaded o id token (leased o id token at db) row
unfolding claim_delivery
claim_delivery-leased o id token at db row e =
    let (_, l, q) = commit_claim-granted _ _ db (leased o id token at db) row e in
    (q, load_claimed-IsLoaded o id token _ row l)

pub leased-IsKeyed :
    (o id token : Text) (at : ℕ) (db : Database) → IsKeyed db → IsKeyed (leased o id token at db)
unfolding leased_row same_delivery
leased-IsKeyed o id token at db h =
    update_where-Apart same_delivery _ (leased_row token at) _ (λ r s. (refl, refl)) h

-- The row of a claim has the key that was claimed.
pub IsLoaded-key :
    (o id token : Text) (db : Database) (row : ClaimedDeliveryRow)
    → IsLoaded o id token db row
    → (row.organization_id ≡ o) × (row.id ≡ id)
IsLoaded-key o id token db row l = (
  l.row_organization ∙ text_eq_sound _ o (ground (arith, l.delivery_is)),
  l.row_id ∙ text_eq_sound _ id (ground (arith, l.delivery_is)),
)

holds-is_delivery :
    (row : ClaimedDeliveryRow) (r : WebhookDeliveryRow) {o id : Text}
    → row.organization_id ≡ o
    → row.id ≡ id
    → holds row r ≡ true
    → is_delivery o id r ≡ true
unfolding holds
holds-is_delivery row r p q h = rw (← p, ← q) (ground arith)

-- The one row of the id has the attempt of the claim.
pub IsLoaded-InAttempt :
    (o id token : Text) (db : Database) (row : ClaimedDeliveryRow)
    → IsKeyed db
    → IsLoaded o id token db row
    → All (InAttempt row) db.webhook_deliveries
IsLoaded-InAttempt o id token db row k l =
    let (p, q) = IsLoaded-key o id token db row l in
    All-imp (λ r. is_delivery o id r ≡ true → r ≡ l.delivery) (InAttempt row)
      (λ r e. record {
        attempt =
            λ h. ap (λ x. x.attempt_count) (e (holds-is_delivery row r p q h)) ∙ sym l.row_attempt;
      })
      db.webhook_deliveries
      (AtMostOne-only (is_delivery o id) db.webhook_deliveries l.delivery
        (IsKeyed-AtMostOne o id db k) l.delivery_there l.delivery_is)

-- A claim that is granted leaves its delivery in its attempt.
pub claim_delivery-InAttempt :
    (o id token : Text) (at : ℕ) (db : Database) (row : ClaimedDeliveryRow)
    → IsKeyed db
    → (claim_delivery o id token at db).1 ≡ granted row
    → All (InAttempt row) (claim_delivery o id token at db).0.webhook_deliveries
claim_delivery-InAttempt o id token at db row k e =
    let (q, l) = claim_delivery-leased o id token at db row e in
    subst (λ x. All (InAttempt row) x.webhook_deliveries) (sym q)
      (IsLoaded-InAttempt o id token _ row (leased-IsKeyed o id token at db k) l)
