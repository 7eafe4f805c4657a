-- ===== src/Outbox/Fencing.antt =====
-- server/services/webhooks.ts: what the token of a claim guards, while others take no such token.
use opencoi.Base.{
  ℕ, ◌≡◌, refl, ap, Bool, true, false, none, arith, Text, All, All-imp, Bool-cases, inl, inr,
  text_eq_sound, All-update_where, update_where-none, length, ◌==◌,
}
use opencoi.Outbox.{WebhookDeliveryRow, Database}
use opencoi.Outbox.Publish.{new_delivery, publish_domain_event-IsPublished}
use opencoi.Outbox.Endpoints.{
  create_webhook_endpoint, replayed_row, set_webhook_endpoint_status, replay_webhook_delivery,
}
use opencoi.Outbox.Claim.{
  ClaimedDeliveryRow, claim_delivery, leased_row, holds, has_token, released_row, recovered_row,
  release_disabled_claim, recover_stale_deliveries,
}
use opencoi.Outbox.Batch.{
  WebhookHttpResult, complete_delivery, completed_row, succeeded_row, failed_delivery_row,
}
use opencoi.Outbox.Steps.{
  InAttempt, Step, publishes, creates, sets_status, replays, recovers, claims, releases, completes,
  Steps, done, after_step,
}
use opencoi.Outbox.Sound.{commit_claim_either, insert_deliveries-All}

-- A property of a delivery that only matters while a claim holds it: it is kept by all that takes the
-- hold away and by a lease with another token.
record IsGuarded (row : ClaimedDeliveryRow) (P : WebhookDeliveryRow → Type 0) : Type 0 where
  free : (d : WebhookDeliveryRow) → holds row d ≡ false → P d

unheld :
    (row : ClaimedDeliveryRow) (d : WebhookDeliveryRow) → d.claim_token ≡ none → holds row d ≡ false
unfolding holds has_token
unheld row d e = ground arith

leased_row-unheld :
    (row : ClaimedDeliveryRow) (taken : Text → Bool) (token : Text) (at : ℕ)
    (d : WebhookDeliveryRow)
    → taken row.claim_token ≡ true
    → taken token ≡ false
    → holds row (leased_row token at d) ≡ false
unfolding holds has_token leased_row
leased_row-unheld row taken token at d t f = ground (arith, text_eq_sound token row.claim_token)

completed_row-unheld :
    (row : ClaimedDeliveryRow) (result : WebhookHttpResult) (attempt at : ℕ)
    (d : WebhookDeliveryRow)
    → holds row (completed_row result attempt at d) ≡ false
unfolding completed_row succeeded_row failed_delivery_row
completed_row-unheld row result attempt at d = elim (Bool-cases result.ok) [
  | inl e ↦ rw e (unheld row _ refl)
  | inr e ↦ rw e (unheld row _ refl)
]

module _ (row : ClaimedDeliveryRow) (taken : Text → Bool) (t : taken row.claim_token ≡ true) where
  Step-guarded :
      (P : WebhookDeliveryRow → Type 0) (a b : Database)
      → IsGuarded row P
      → Step taken a b
      → All P a.webhook_deliveries
      → All P b.webhook_deliveries
  unfolding set_webhook_endpoint_status replay_webhook_delivery recover_stale_deliveries
      claim_delivery release_disabled_claim create_webhook_endpoint complete_delivery replayed_row
      recovered_row released_row new_delivery
  Step-guarded P _ _ g (publishes input new_id a b event e) h =
      insert_deliveries-All P input new_id (λ e. g.free _ (unheld row _ refl)) _ _ _
        (publish_domain_event-IsPublished input new_id a b event e).deliveries h
  Step-guarded P _ _ g (creates input a b e) h = ground arith
  Step-guarded P _ _ g (sets_status o id s at a) h = h
  Step-guarded P _ _ g (replays o id at a) h =
      All-update_where P _ (replayed_row at) (λ d e k. g.free _ (unheld row _ refl)) _ h
  Step-guarded P _ _ g (recovers now a) h =
      All-update_where P _ (recovered_row now) (λ d e k. g.free _ (unheld row _ refl)) _ h
  Step-guarded P _ _ g (claims o id token at a q) h =
      commit_claim_either (λ x. All P x.webhook_deliveries) _ _ a _ h
        (All-update_where P _ (leased_row token at)
          (λ d e k. g.free _ (leased_row-unheld row taken token at d t q)) _ h)
  Step-guarded P _ _ g (releases other now a) h =
      All-update_where P _ (released_row now) (λ d e k. g.free _ (unheld row _ refl)) _ h
  Step-guarded P _ _ g (completes other result at a k) h =
      All-update_where P _ _
        (λ d e k. g.free _ (completed_row-unheld row result other.attempt_count at d)) _ h

  Steps-guarded :
      (P : WebhookDeliveryRow → Type 0) (a b : Database)
      → IsGuarded row P
      → Steps taken a b
      → All P a.webhook_deliveries
      → All P b.webhook_deliveries
  Steps-guarded P _ _ g done h = h
  Steps-guarded P a c g (after_step {b} s p) h = Steps-guarded P b c g p (Step-guarded P a b g s h)

  -- What others do leaves a delivery that is held in the attempt of its claim.
  pub Steps-InAttempt :
      (a b : Database)
      → Steps taken a b
      → All (InAttempt row) a.webhook_deliveries
      → All (InAttempt row) b.webhook_deliveries
  Steps-InAttempt a b =
      Steps-guarded (InAttempt row) a b
        (record { free = λ d f. record { attempt = λ e. ground arith } })

  unheld_forever :
      (a b : Database)
      → Steps taken a b
      → All (λ d. holds row d ≡ false) a.webhook_deliveries
      → All (λ d. holds row d ≡ false) b.webhook_deliveries
  unheld_forever a b = Steps-guarded (λ d. holds row d ≡ false) a b (record { free = λ d f. f })

  -- A worker that lost its lease changes nothing any more: once no delivery is held by its claim, since
  -- the claim expired, was released or completed, or the delivery was replayed, then whatever others do
  -- that takes no such token again, the completion and the release of that claim leave the deliveries as
  -- they are and report that they changed none.
  pub Steps-fenced :
      (a b : Database) (result : WebhookHttpResult) (at : ℕ)
      → All (λ d. holds row d ≡ false) a.webhook_deliveries
      → Steps taken a b
      → (complete_delivery row result at b ≡ (b, false))
        × (release_disabled_claim row at b ≡ (b, false))
  unfolding complete_delivery release_disabled_claim
  Steps-fenced a b result at h p =
      let free = unheld_forever a b p h in
      (
        ap (λ x. (record b { webhook_deliveries = x.0 }, length x.1 == 1))
            (update_where-none (holds row) _ _ free),
        ap (λ x. (record b { webhook_deliveries = x.0 }, length x.1 == 1))
            (update_where-none _ _ _
              (All-imp (λ d. holds row d ≡ false) _ (λ d e. ground arith) _ free)),
      )
