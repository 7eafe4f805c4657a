-- ===== src/Outbox/Progress.antt =====
-- server/services/webhooks.ts: a delivery whose endpoint is active is attempted again, or is a dead
-- letter after its last attempt.
use opencoi.Base.{
  ℕ, ◌+◌, ◌-◌, ◌≤◌, ◌<◌, ◌≡◌, ◌≢◌, ◌⊎◌, refl, ap, true, false, some, arith, Text, inl, inr,
  Option-cases, All-Memᴰ, Memᴰ-update_where, Memᴰ-update_where_changed,
}
use mathlib.Core.List.{Memᴰ}
use opencoi.Outbox.{
  WebhookDeliveryRow, Database, pending, processing, failed, dead_letter, succeeded, DeliveryStatus,
  awaits_attempt, is_delivery,
}
use opencoi.Outbox.Claim.{
  ClaimedDeliveryRow, granted, claim_delivery, is_delivery_due, is_stale, recovered_row,
  recover_stale_deliveries, stale_claim_ms,
}
use opencoi.Outbox.Steps.{recovers}
use opencoi.Outbox.Keys.{IsKeyed, Step-IsKeyed}
use opencoi.Outbox.Sound.{IsSound, AllSound}
use opencoi.Outbox.Due.{CanBeSent, is_delivery_refl, claim_delivery-due}

recovered-CanBeSent :
    (now : ℕ) (db : Database) (d r : WebhookDeliveryRow)
    → r.organization_id ≡ d.organization_id
    → r.endpoint_id ≡ d.endpoint_id
    → r.event_id ≡ d.event_id
    → CanBeSent db d
    → CanBeSent (recover_stale_deliveries now db).0 r
unfolding recover_stale_deliveries
recovered-CanBeSent now db d r p q s c = record {
  endpoint = rw (p, q) c.endpoint;
  event = c.event;
  event_there = c.event_there;
  event_is = rw (p, s) c.event_is;
}

-- From a time on, a delivery is leased by a claim that follows a recovery, or the recovery makes it a
-- dead letter.
pub Attempted : (token : Text) (at : ℕ) (db : Database) (d : WebhookDeliveryRow) → Type 0
Attempted token at db d =
    (row : ClaimedDeliveryRow) × ((claim_delivery d.organization_id d.id token at
        (recover_stale_deliveries at db).0).1
      ≡ granted row)
    × (row.attempt_count ≡ d.attempt_count + 1)

pub IsDeadLetter : (at : ℕ) (db : Database) (d : WebhookDeliveryRow) → Type 0
IsDeadLetter at db d =
    (r : WebhookDeliveryRow) × Memᴰ r (recover_stale_deliveries at db).0.webhook_deliveries
    × (is_delivery d.organization_id d.id r ≡ true)
    × (r.status ≡ dead_letter)
    × (d.attempt_count ≡ 8)

lt_cases : (n : ℕ) → n ≤ 8 → (n < 8) ⊎ (n ≡ 8)
lt_cases n h = ground arith

module _ (token : Text) (at : ℕ) (db : Database) (d : WebhookDeliveryRow) (k : IsKeyed db)
    (h : IsSound d) (m : Memᴰ d db.webhook_deliveries) (c : CanBeSent db d) where
  recovered-IsKeyed : IsKeyed (recover_stale_deliveries at db).0
  recovered-IsKeyed = Step-IsKeyed {taken = λ t. false} (recovers at db) k

  -- A delivery that waits is left by the recovery, and is due.
  waiting-Attempted :
      awaits_attempt d.status ≡ true → d.next_attempt_at ≤ at → Attempted token at db d
  unfolding Attempted
  waiting-Attempted s t =
      claim_delivery-due (recover_stale_deliveries at db).0 d token at recovered-IsKeyed
        (unfold recover_stale_deliveries in
          (Memᴰ-update_where _ _ _ d (unfold is_stale in (ground arith)) m))
        (recovered-CanBeSent at db d d refl refl refl c)
        (unfold is_delivery_due recover_stale_deliveries in
          (ground (arith, c.endpoint, h.new, h.waiting)))

  stale :
      (t : ℕ)
      → d.claimed_at ≡ some t
      → d.status ≡ processing
      → t + 300001 ≤ at
      → is_stale (at - stale_claim_ms) d ≡ true
  unfolding is_stale
  stale t e s l = ground arith

  stale_there :
      is_stale (at - stale_claim_ms) d ≡ true
      → Memᴰ (recovered_row at d) (recover_stale_deliveries at db).0.webhook_deliveries
  unfolding recover_stale_deliveries
  stale_there e = Memᴰ-update_where_changed _ (recovered_row at) _ d e m

  -- A lease that expired is failed by the recovery, and the delivery is due at once.
  stale-Attempted :
      is_stale (at - stale_claim_ms) d ≡ true → d.attempt_count < 8 → Attempted token at db d
  unfolding Attempted recovered_row
  stale-Attempted e l =
      claim_delivery-due (recover_stale_deliveries at db).0 (recovered_row at d) token at
        recovered-IsKeyed (stale_there e)
        (recovered-CanBeSent at db d (recovered_row at d) refl refl refl c)
        (unfold is_delivery_due recover_stale_deliveries in (ground (arith, c.endpoint)))

  stale-IsDeadLetter :
      is_stale (at - stale_claim_ms) d ≡ true → d.attempt_count ≡ 8 → IsDeadLetter at db d
  unfolding IsDeadLetter recovered_row
  stale-IsDeadLetter e l = (recovered_row at d, stale_there e, is_delivery_refl d, ground arith, l)

  stale-settled :
      (t : ℕ)
      → d.claimed_at ≡ some t
      → d.status ≡ processing
      → t + 300001 ≤ at
      → Attempted token at db d ⊎ IsDeadLetter at db d
  stale-settled t e s l = elim (lt_cases d.attempt_count (h.leased s).1) [
    | inl q ↦ inl (stale-Attempted (stale t e s l) q)
    | inr q ↦ inr (stale-IsDeadLetter (stale t e s l) q)
  ]

-- No delivery is stuck: one that has neither succeeded nor become a dead letter, whose endpoint is active
-- and whose event is there, has a time from which on a claim of it that follows a recovery leases it for
-- its next attempt, with any token; only where its lease of the eighth attempt expired, the recovery
-- makes it a dead letter instead.
pub delivery-progresses :
    (db : Database) (d : WebhookDeliveryRow)
    → IsKeyed db
    → AllSound db
    → Memᴰ d db.webhook_deliveries
    → CanBeSent db d
    → d.status ≢ succeeded
    → d.status ≢ dead_letter
    → (t : ℕ) × ((at : ℕ)
        → t ≤ at
        → (token : Text) → Attempted token at db d ⊎ IsDeadLetter at db d)
delivery-progresses db d k hs m c s l = by_status d.status refl
  where
    h : IsSound d
    h = All-Memᴰ IsSound _ hs m

    waits :
        awaits_attempt d.status ≡ true
        → (t : ℕ) × ((at : ℕ)
            → t ≤ at
            → (token : Text) → Attempted token at db d ⊎ IsDeadLetter at db d)
    waits q = (d.next_attempt_at, λ at q' token. inl (waiting-Attempted token at db d k h m c q q'))

    by_status :
        (status : DeliveryStatus)
        → d.status ≡ status
        → (t : ℕ) × ((at : ℕ)
            → t ≤ at
            → (token : Text) → Attempted token at db d ⊎ IsDeadLetter at db d)
    by_status pending q = waits (ap awaits_attempt q)
    by_status failed q = waits (ap awaits_attempt q)
    by_status succeeded q = absurd (s q)
    by_status dead_letter q = absurd (l q)
    by_status processing q = elim (Option-cases d.claimed_at) [
      | inl e ↦ ground (arith, h.since)
      | inr (t, e) ↦ (t + 300001, λ at q' token. stale-settled token at db d k h m c t e q q')
    ]
