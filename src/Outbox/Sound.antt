-- ===== src/Outbox/Sound.antt =====
-- What holds of every delivery, whatever the services do (server/services/webhooks.ts).
use opencoi.Base.{
  All-both, ℕ, ◌≤◌, ◌<◌, ◌≡◌, subst, Bool, true, false, Option, none, some, List, [], ◌∷◌, arith,
  is_some, Text, All, Bool-cases, inl, inr, some-inj, All-update_where, All-update_where_split, any,
}
use opencoi.Outbox.{
  WebhookEndpointRow, WebhookDeliveryRow, Database, pending, processing, succeeded, failed,
  dead_letter, is_processing_delivery,
}
use opencoi.Outbox.Publish.{
  publish_domain_event-IsPublished, PublishInput, insert_deliveries, new_delivery, same_delivery,
}
use opencoi.Outbox.Endpoints.{
  create_webhook_endpoint, replayed_row, set_webhook_endpoint_status, replay_webhook_delivery,
}
use opencoi.Outbox.Claim.{
  ClaimedDeliveryRow, claim_delivery, commit_claim, leased_row, is_delivery_due, holds, has_token,
  released_row, recovered_row, release_disabled_claim, recover_stale_deliveries, is_stale,
}
use opencoi.Outbox.Batch.{
  WebhookHttpResult, complete_delivery, completed_row, succeeded_row, failed_delivery_row,
}
use opencoi.Outbox.Steps.{
  InAttempt, Step, publishes, creates, sets_status, replays, recovers, claims, releases, completes,
  Steps, done, after_step,
}

pub record IsSound (d : WebhookDeliveryRow) : Type 0 where
  pub token : is_some d.claim_token ≡ is_processing_delivery d.status
  pub since : is_some d.claimed_at ≡ is_processing_delivery d.status
  pub new : d.status ≡ pending → d.attempt_count ≡ 0
  pub leased : d.status ≡ processing → (1 ≤ d.attempt_count) × (d.attempt_count ≤ 8)
  pub waiting : d.status ≡ failed → (1 ≤ d.attempt_count) × (d.attempt_count < 8)
  pub exhausted : d.status ≡ dead_letter → d.attempt_count ≡ 8
  pub delivered :
      d.status ≡ succeeded
      → (1 ≤ d.attempt_count) × (d.attempt_count ≤ 8) × (is_some d.delivered_at ≡ true)

new_delivery-IsSound :
    (input : PublishInput) (new_id : WebhookEndpointRow → Text) (e : WebhookEndpointRow)
    → IsSound (new_delivery input new_id e)
unfolding new_delivery
new_delivery-IsSound input new_id e = ground arith

replayed_row-IsSound : (at : ℕ) (d : WebhookDeliveryRow) → IsSound (replayed_row at d)
unfolding replayed_row
replayed_row-IsSound at d = ground arith

leased_row-IsSound :
    (endpoints : List WebhookEndpointRow) (token : Text) (at : ℕ) (d : WebhookDeliveryRow)
    → is_delivery_due endpoints at d ≡ true
    → IsSound d
    → IsSound (leased_row token at d)
unfolding leased_row is_delivery_due
leased_row-IsSound endpoints token at d e h = ground arith

recovered_row-IsSound :
    (before at : ℕ) (d : WebhookDeliveryRow)
    → is_stale before d ≡ true
    → IsSound d
    → IsSound (recovered_row at d)
unfolding recovered_row is_stale
recovered_row-IsSound before at d e h = ground arith

released_row-IsSound :
    (at : ℕ) (d : WebhookDeliveryRow)
    → is_processing_delivery d.status ≡ true
    → IsSound d
    → IsSound (released_row at d)
unfolding released_row
released_row-IsSound at d e h = ground arith

has_token_processing :
    (t : Text) (d : WebhookDeliveryRow) → has_token t d ≡ true → IsSound d → d.status ≡ processing
unfolding has_token
has_token_processing t d e h = ground (arith, h.token)

completed_row-IsSound :
    (result : WebhookHttpResult) (attempt at : ℕ) (d : WebhookDeliveryRow)
    → d.status ≡ processing
    → d.attempt_count ≡ attempt
    → IsSound d
    → IsSound (completed_row result attempt at d)
unfolding completed_row succeeded_row failed_delivery_row
completed_row-IsSound result attempt at d s e h = ground arith

abbrev pub AllSound : Database → Type 0
AllSound db = All IsSound db.webhook_deliveries

-- What a claim leaves, committed or rolled back.
pub commit_claim_either {ℓ} :
    (P : Database → Type ℓ) (changed : Bool) (row : Option ClaimedDeliveryRow)
    (before after : Database)
    → P before
    → P after
    → P (commit_claim changed row before after).0
commit_claim_either P true none a b h k = h
commit_claim_either P false none a b h k = k
commit_claim_either P true (some row) a b h k = k
commit_claim_either P false (some row) a b h k = k

-- A property of the deliveries is kept by the new ones that have it.
pub insert_deliveries-All {ℓ} :
    (P : WebhookDeliveryRow → Type ℓ) (input : PublishInput) (new_id : WebhookEndpointRow → Text)
    → ((e : WebhookEndpointRow) → P (new_delivery input new_id e))
    → (es : List WebhookEndpointRow) (a b : List WebhookDeliveryRow)
    → insert_deliveries input new_id es a ≡ some b
    → All P a
    → All P b
unfolding insert_deliveries
insert_deliveries-All P input new_id k [] a b e h = subst (All P) (some-inj e) h
insert_deliveries-All P input new_id k (w ∷ es) a b e h =
    elim (Bool-cases (any (same_delivery (new_delivery input new_id w)) a)) [
      | inl q ↦ ground (arith, q)
      | inr q ↦
          insert_deliveries-All P input new_id k es (new_delivery input new_id w ∷ a) b (rw q at e)
            (k w, h)
    ]

complete_delivery-IsSound :
    (row : ClaimedDeliveryRow) (result : WebhookHttpResult) (at : ℕ) (a : Database)
    → All (InAttempt row) a.webhook_deliveries
    → AllSound a
    → AllSound (complete_delivery row result at a).0
unfolding complete_delivery holds
complete_delivery-IsSound row result at a g h =
    All-update_where_split (λ d. InAttempt row d × IsSound d) IsSound (holds row) _
      (λ d e k.
        completed_row-IsSound result row.attempt_count at d
          (has_token_processing row.claim_token d (ground arith) k.1) (k.0.attempt e) k.1)
      (λ d e k. k.1) a.webhook_deliveries (All-both (InAttempt row) IsSound _ g h)

pub Step-IsSound : {taken : Text → Bool} {a b : Database} → Step taken a b → AllSound a → AllSound b
unfolding set_webhook_endpoint_status replay_webhook_delivery recover_stale_deliveries
    claim_delivery release_disabled_claim create_webhook_endpoint
Step-IsSound (publishes input new_id a b event e) h =
    insert_deliveries-All IsSound input new_id (new_delivery-IsSound input new_id) _ _ _
      (publish_domain_event-IsPublished input new_id a b event e).deliveries h
Step-IsSound (creates input a b e) h = ground arith
Step-IsSound (sets_status o id s at a) h = h
Step-IsSound (replays o id at a) h =
    All-update_where IsSound _ (replayed_row at) (λ d e k. replayed_row-IsSound at d) _ h
Step-IsSound (recovers now a) h =
    All-update_where IsSound _ (recovered_row now) (recovered_row-IsSound _ now) _ h
Step-IsSound (claims o id token at a q) h = commit_claim_either AllSound _ _ a _ h (
    All-update_where IsSound _ (leased_row token at)
      (λ d e k. leased_row-IsSound a.webhook_endpoints token at d (ground arith) k) _ h)
Step-IsSound (releases row now a) h =
    All-update_where IsSound _ (released_row now)
      (λ d e k. released_row-IsSound now d (ground arith) k) _ h
Step-IsSound (completes row result at a g) h = complete_delivery-IsSound row result at a g h

pub Steps-IsSound :
    (taken : Text → Bool) (a b : Database) → Steps taken a b → AllSound a → AllSound b
Steps-IsSound taken a b done h = h
Steps-IsSound taken a b (after_step s p) h = Steps-IsSound taken _ b p (Step-IsSound s h)
