-- ===== src/Outbox/Final.antt =====
-- server/services/webhooks.ts: a delivery that succeeded is not touched again.
use opencoi.Base.{
  ◌≡◌, subst, Bool, false, some, List, [], ◌∷◌, arith, Text, Bool-cases, inl, inr, any, some-inj,
  All-Memᴰ, Memᴰ-update_where,
}
use mathlib.Core.List.{Memᴰ}
use opencoi.Outbox.{WebhookEndpointRow, WebhookDeliveryRow, Database, succeeded}
use opencoi.Outbox.Publish.{
  PublishInput, insert_deliveries, new_delivery, same_delivery, publish_domain_event-IsPublished,
}
use opencoi.Outbox.Endpoints.{
  create_webhook_endpoint, set_webhook_endpoint_status, replay_webhook_delivery,
}
use opencoi.Outbox.Claim.{
  ClaimedDeliveryRow, claim_delivery, is_delivery_due, is_stale, holds, has_token,
  release_disabled_claim, recover_stale_deliveries,
}
use opencoi.Outbox.Batch.{complete_delivery}
use opencoi.Outbox.Steps.{
  Step, publishes, creates, sets_status, replays, recovers, claims, releases, completes, Steps,
  done, after_step,
}
use opencoi.Outbox.Sound.{IsSound, AllSound, Step-IsSound, commit_claim_either}

pub insert_deliveries-Memᴰ :
    (input : PublishInput) (new_id : WebhookEndpointRow → Text) (es : List WebhookEndpointRow)
    (a b : List WebhookDeliveryRow) (d : WebhookDeliveryRow)
    → insert_deliveries input new_id es a ≡ some b
    → Memᴰ d a
    → Memᴰ d b
unfolding insert_deliveries
insert_deliveries-Memᴰ input new_id [] a b d e m = subst (Memᴰ d) (some-inj e) m
insert_deliveries-Memᴰ input new_id (w ∷ es) a b d e m =
    elim (Bool-cases (any (same_delivery (new_delivery input new_id w)) a)) [
      | inl q ↦ ground (arith, q)
      | inr q ↦
          insert_deliveries-Memᴰ input new_id es (new_delivery input new_id w ∷ a) b d (rw q at e)
            (Memᴰ.tail m)
    ]

module _ (d : WebhookDeliveryRow) (s : d.status ≡ succeeded) (h : IsSound d) where
  no_hold : (row : ClaimedDeliveryRow) → holds row d ≡ false
  unfolding holds has_token
  no_hold row = ground (arith, h.token)

  Step-keeps :
      {taken : Text → Bool} {a b : Database}
      → Step taken a b
      → Memᴰ d a.webhook_deliveries
      → Memᴰ d b.webhook_deliveries
  unfolding set_webhook_endpoint_status replay_webhook_delivery recover_stale_deliveries
      claim_delivery release_disabled_claim create_webhook_endpoint complete_delivery is_stale
      is_delivery_due
  Step-keeps (publishes input new_id a b event e) m =
      insert_deliveries-Memᴰ input new_id _ _ _ d
        (publish_domain_event-IsPublished input new_id a b event e).deliveries m
  Step-keeps (creates input a b e) m = ground arith
  Step-keeps (sets_status o id status at a) m = m
  Step-keeps (replays o id at a) m = Memᴰ-update_where _ _ _ d (ground arith) m
  Step-keeps (recovers now a) m = Memᴰ-update_where _ _ _ d (ground arith) m
  Step-keeps (claims o id token at a q) m =
      commit_claim_either (λ x. Memᴰ d x.webhook_deliveries) _ _ a _ m
        (Memᴰ-update_where _ _ _ d (ground arith) m)
  Step-keeps (releases row now a) m = Memᴰ-update_where _ _ _ d (ground (arith, no_hold row)) m
  Step-keeps (completes row result at a k) m = Memᴰ-update_where _ _ _ d (no_hold row) m

-- A delivery that succeeded stays in the table as it is, whatever the services do: it is never leased,
-- sent, replayed or recovered again.
pub Steps-stays_succeeded :
    (taken : Text → Bool) (a b : Database) (d : WebhookDeliveryRow)
    → AllSound a
    → Steps taken a b
    → Memᴰ d a.webhook_deliveries
    → d.status ≡ succeeded
    → Memᴰ d b.webhook_deliveries
Steps-stays_succeeded taken a b d h done m s = m
Steps-stays_succeeded taken a b d h (after_step t p) m s =
    Steps-stays_succeeded taken _ b d (Step-IsSound t h) p
      (Step-keeps d s (All-Memᴰ IsSound _ h m) t m) s
