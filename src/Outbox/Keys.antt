-- ===== src/Outbox/Keys.antt =====
-- The keys of the deliveries (server/services/integrationSchema.ts): what `PRIMARY KEY` and `UNIQUE`
-- promise holds after every step of the services.
use opencoi.Base.{
  ℕ, ◌≡◌, refl, subst, Bool, true, false, some, List, [], ◌∷◌, arith, Text, Bool-cases, inl, inr,
  text_eq_sound, text_eq_refl, some-inj, any, All-of_any, Apart, KeepsKeys, update_where-Apart,
  Apart-AtMostOne, AtMostOne,
}
use opencoi.Outbox.{WebhookEndpointRow, WebhookDeliveryRow, Database, is_delivery}
use opencoi.Outbox.Publish.{
  PublishInput, insert_deliveries, new_delivery, same_delivery, publish_domain_event-IsPublished,
}
use opencoi.Outbox.Endpoints.{
  create_webhook_endpoint, replayed_row, set_webhook_endpoint_status, replay_webhook_delivery,
}
use opencoi.Outbox.Claim.{
  claim_delivery, leased_row, released_row, recovered_row, release_disabled_claim,
  recover_stale_deliveries,
}
use opencoi.Outbox.Batch.{
  WebhookHttpResult, complete_delivery, completed_row, succeeded_row, failed_delivery_row,
}
use opencoi.Outbox.Steps.{
  Step, publishes, creates, sets_status, replays, recovers, claims, releases, completes, Steps,
  done, after_step,
}
use opencoi.Outbox.Sound.{AllSound, Steps-IsSound, commit_claim_either}

abbrev pub AreKeyed : List WebhookDeliveryRow → Type 0
AreKeyed = Apart same_delivery

-- No two deliveries have the same id, nor the same event and endpoint in an organization.
abbrev pub IsKeyed : Database → Type 0
IsKeyed db = AreKeyed db.webhook_deliveries

insert_deliveries-AreKeyed :
    (input : PublishInput) (new_id : WebhookEndpointRow → Text) (es : List WebhookEndpointRow)
    (a b : List WebhookDeliveryRow)
    → insert_deliveries input new_id es a ≡ some b
    → AreKeyed a
    → AreKeyed b
unfolding insert_deliveries
insert_deliveries-AreKeyed input new_id [] a b e h = subst AreKeyed (some-inj e) h
insert_deliveries-AreKeyed input new_id (w ∷ es) a b e h =
    elim (Bool-cases (any (same_delivery (new_delivery input new_id w)) a)) [
      | inl q ↦ ground (arith, q)
      | inr q ↦
          insert_deliveries-AreKeyed input new_id es (new_delivery input new_id w ∷ a) b (rw q at e)
            (All-of_any _ a q, h)
    ]

completed_row-KeepsKeys :
    (result : WebhookHttpResult) (attempt at : ℕ)
    → KeepsKeys same_delivery (completed_row result attempt at)
unfolding completed_row succeeded_row failed_delivery_row same_delivery
completed_row-KeepsKeys result attempt at r s = elim (Bool-cases result.ok) [
  | inl e ↦ rw e (refl, refl)
  | inr e ↦ rw e (refl, refl)
]

pub Step-IsKeyed : {taken : Text → Bool} {a b : Database} → Step taken a b → IsKeyed a → IsKeyed b
unfolding set_webhook_endpoint_status replay_webhook_delivery recover_stale_deliveries
    claim_delivery release_disabled_claim create_webhook_endpoint complete_delivery replayed_row
    recovered_row leased_row released_row same_delivery
Step-IsKeyed (publishes input new_id a b event e) h =
    insert_deliveries-AreKeyed input new_id _ _ _
      (publish_domain_event-IsPublished input new_id a b event e).deliveries h
Step-IsKeyed (creates input a b e) h = ground arith
Step-IsKeyed (sets_status o id s at a) h = h
Step-IsKeyed (replays o id at a) h =
    update_where-Apart same_delivery _ (replayed_row at) _ (λ r s. (refl, refl)) h
Step-IsKeyed (recovers now a) h =
    update_where-Apart same_delivery _ (recovered_row now) _ (λ r s. (refl, refl)) h
Step-IsKeyed (claims o id token at a q) h =
    commit_claim_either IsKeyed _ _ a _ h
      (update_where-Apart same_delivery _ (leased_row token at) _ (λ r s. (refl, refl)) h)
Step-IsKeyed (releases row now a) h =
    update_where-Apart same_delivery _ (released_row now) _ (λ r s. (refl, refl)) h
Step-IsKeyed (completes row result at a g) h =
    update_where-Apart same_delivery _ _ _ (completed_row-KeepsKeys result row.attempt_count at) h

other_id :
    (o id : Text) (r s : WebhookDeliveryRow)
    → is_delivery o id r ≡ true
    → same_delivery r s ≡ false
    → is_delivery o id s ≡ false
unfolding same_delivery
other_id o id r s q k =
    ground (arith, text_eq_sound s.id id, text_eq_sound r.id id, text_eq_refl r.id)

pub IsKeyed-AtMostOne :
    (o id : Text) (db : Database) → IsKeyed db → AtMostOne (is_delivery o id) db.webhook_deliveries
IsKeyed-AtMostOne o id db = Apart-AtMostOne same_delivery (is_delivery o id) (other_id o id) _

pub Steps-IsKeyed : (taken : Text → Bool) (a b : Database) → Steps taken a b → IsKeyed a → IsKeyed b
Steps-IsKeyed taken a b done h = h
Steps-IsKeyed taken a b (after_step s p) h = Steps-IsKeyed taken _ b p (Step-IsKeyed s h)

pub record IsConsistent (db : Database) : Type 0 where
  pub sound : AllSound db
  pub keyed : IsKeyed db

-- Whatever the services do to the outbox, in any order, each delivery stays sound: it has a token and
-- a time of its claim exactly while it is processed, a pending one has no attempt, a failed one has one
-- at least and fewer than eight, a dead letter has eight, and one that succeeded has its time; and no two
-- deliveries come to have the same id, nor the same event and endpoint in an organization.
pub Steps-IsConsistent :
    (taken : Text → Bool) (a b : Database) → Steps taken a b → IsConsistent a → IsConsistent b
Steps-IsConsistent taken a b p h = record {
  sound = Steps-IsSound taken a b p h.sound;
  keyed = Steps-IsKeyed taken a b p h.keyed;
}
