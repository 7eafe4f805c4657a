-- ===== src/Outbox/FanOut.antt =====
-- server/services/domainEvents.ts: the deliveries that an event gets, and the first claim of each.
use opencoi.Base.{
  ℕ, ◌≤◌, ◌≡◌, ◌↔◌, ◌⊎◌, refl, sym, subst, ap, ◌∙◌, true, false, some, List, [], ◌∷◌, arith, Text,
  Bool-cases, inl, inr, text_eq_sound, text_eq_refl, some-inj, any, any_of_Memᴰ, filter,
  Memᴰ_of_filter,
}
use mathlib.Core.List.{Memᴰ}
use opencoi.Outbox.{
  WebhookEndpointRow, DomainEventRow, WebhookDeliveryRow, Database, is_active, is_event,
  webhook_endpoint_is_active,
}
use opencoi.Outbox.Publish.{
  PublishInput, insert_deliveries, new_delivery, same_delivery, is_target, publish_domain_event,
  IsPublished, publish_domain_event-IsPublished, new_domain_event,
}
use opencoi.Outbox.Claim.{ClaimedDeliveryRow, granted, claim_delivery, is_delivery_due}
use opencoi.Outbox.Steps.{publishes}
use opencoi.Outbox.Keys.{IsKeyed, Step-IsKeyed}
use opencoi.Outbox.Due.{CanBeSent, claim_delivery-due}

target_parts :
    (o type : Text) (w : WebhookEndpointRow)
    → is_target o type w ≡ true
    → (w.organization_id ≡ o) × (is_active w.status ≡ true)
unfolding is_target
target_parts o type w t = ground (arith, text_eq_sound w.organization_id o)

module _ (input : PublishInput) (new_id : WebhookEndpointRow → Text) where
  new_event_is :
      (events : List DomainEventRow)
      → is_event input.organization_id input.id (new_domain_event input events) ≡ true
  unfolding new_domain_event
  new_event_is events = ground (arith, text_eq_refl input.organization_id, text_eq_refl input.id)

  -- A delivery to one of some endpoints.
  abbrev pub IsTo : List WebhookEndpointRow → WebhookDeliveryRow → Type 0
  IsTo es d = (e : WebhookEndpointRow) × Memᴰ e es × (d ≡ new_delivery input new_id e)

  inserted :
      (es : List WebhookEndpointRow) (a b : List WebhookDeliveryRow) (d : WebhookDeliveryRow)
      → insert_deliveries input new_id es a ≡ some b
      → (Memᴰ d b → Memᴰ d a ⊎ IsTo es d) × (Memᴰ d a ⊎ IsTo es d → Memᴰ d b)
  unfolding insert_deliveries
  inserted [] a b d e = (
    λ m. inl (subst (Memᴰ d) (sym (some-inj e)) m),
    λ x. elim x [ inl m ↦ subst (Memᴰ d) (some-inj e) m | inr (w, m, q) ↦ elim m [ ] ],
  )
  inserted (w ∷ es) a b d e =
      elim (Bool-cases (any (same_delivery (new_delivery input new_id w)) a)) [
        | inl q ↦ ground (arith, q)
        | inr q ↦
            let (to, from) = inserted es (new_delivery input new_id w ∷ a) b d (rw q at e) in
            (λ m. first (to m), λ x. from (second x))
      ]
    where
      first : Memᴰ d (new_delivery input new_id w ∷ a) ⊎ IsTo es d → Memᴰ d a ⊎ IsTo (w ∷ es) d
      first (inl (Memᴰ.head q)) = inr (w, Memᴰ.head refl, q)
      first (inl (Memᴰ.tail m)) = inl m
      first (inr (v, m, q)) = inr (v, Memᴰ.tail m, q)

      second : Memᴰ d a ⊎ IsTo (w ∷ es) d → Memᴰ d (new_delivery input new_id w ∷ a) ⊎ IsTo es d
      second (inl m) = inl (Memᴰ.tail m)
      second (inr (v, Memᴰ.head p, q)) = inl (Memᴰ.head (q ∙ ap (new_delivery input new_id) p))
      second (inr (v, Memᴰ.tail m, q)) = inr (v, m, q)

  module _ (a b : Database) (event : DomainEventRow) (k : IsKeyed a)
      (e : publish_domain_event input new_id a ≡ some (b, event)) where
    published : IsPublished input new_id a b event
    published = publish_domain_event-IsPublished input new_id a b event e

    keyed : IsKeyed b
    keyed = Step-IsKeyed {taken = λ t. false} (publishes input new_id a b event e) k

    reached :
        (w : WebhookEndpointRow)
        → Memᴰ w a.webhook_endpoints
        → is_target input.organization_id input.type w ≡ true
        → Memᴰ (new_delivery input new_id w) b.webhook_deliveries
    reached w m t =
        (inserted _ _ _ (new_delivery input new_id w) published.deliveries).1
          (inr (w, Memᴰ_of_filter _ _ m t, refl))

    sendable :
        (w : WebhookEndpointRow)
        → Memᴰ w a.webhook_endpoints
        → is_target input.organization_id input.type w ≡ true
        → CanBeSent b (new_delivery input new_id w)
    unfolding new_delivery webhook_endpoint_is_active
    sendable w m t = record {
      endpoint = any_of_Memᴰ _ b.webhook_endpoints (subst (Memᴰ w) (sym published.endpoints) m) (
          ground (
            arith,
            text_eq_refl w.organization_id,
            text_eq_refl w.id,
            target_parts input.organization_id input.type w t,
          ));
      event = event;
      event_there = rw published.events (Memᴰ.head refl);
      event_is =
          rw (published.appended, (target_parts input.organization_id input.type w t).0)
            (new_event_is a.domain_events);
    }

    new_delivery_is_due :
        (w : WebhookEndpointRow) (at : ℕ)
        → CanBeSent b (new_delivery input new_id w)
        → input.at ≤ at
        → is_delivery_due b.webhook_endpoints at (new_delivery input new_id w) ≡ true
    unfolding is_delivery_due new_delivery
    new_delivery_is_due w at c l = ground (arith, c.endpoint)

    first_attempt :
        (w : WebhookEndpointRow)
        → Memᴰ w a.webhook_endpoints
        → is_target input.organization_id input.type w ≡ true
        → (at : ℕ) → input.at ≤ at
        → (token : Text)
        → (row : ClaimedDeliveryRow) × ((claim_delivery w.organization_id (new_id w) token at b).1
            ≡ granted row)
          × (row.attempt_count ≡ 1)
    unfolding new_delivery
    first_attempt w m t at l token =
        claim_delivery-due b (new_delivery input new_id w) token at keyed (reached w m t)
          (sendable w m t) (new_delivery_is_due w at (sendable w m t) l)

    -- The deliveries after the publication of an event are those before it and a new one to each active
    -- endpoint of the organization that takes its type or all, and no other; from its time on, a claim of
    -- such a new one is granted, with any token, for its first attempt.
    pub publish_domain_event-reaches :
        ((d : WebhookDeliveryRow)
          → (Memᴰ d b.webhook_deliveries) ↔ (
              Memᴰ d a.webhook_deliveries
              ⊎ IsTo (filter (is_target input.organization_id input.type) a.webhook_endpoints) d))
        × ((w : WebhookEndpointRow)
            → Memᴰ w a.webhook_endpoints
            → is_target input.organization_id input.type w ≡ true
            → (at : ℕ) → input.at ≤ at
            → (token : Text)
            → (row : ClaimedDeliveryRow) × ((claim_delivery w.organization_id
                  (new_id w)
                  token
                  at
                  b).1
                ≡ granted row)
              × (row.attempt_count ≡ 1))
    publish_domain_event-reaches = (λ d. inserted _ _ _ d published.deliveries, first_attempt)
