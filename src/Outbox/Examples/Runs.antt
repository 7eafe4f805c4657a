-- ===== src/Outbox/Examples/Runs.antt =====
-- What the theorems say of the example of an event (server/services/domainEvents.ts, webhooks.ts).
use mathlib.Core.List.{Memᴰ}
use native.Mathlib.Omega.{arith}
use opencoi.Base.{
  ℕ, ◌+◌, ◌≤◌, ◌≡◌, ◌⊎◌, ◌↔◌, refl, Bool, true, false, some, List, [], ◌∷◌, codes, Text, text_eq,
  any, filter, find, update_where, map,
}
use opencoi.Webhooks.{
  Url, Address, ipv4, no_address, LookupAddress, resolve_public_webhook_target, select_target,
  addresses_of, is_refused, is_public_webhook_address, is_disallowed_ipv4,
}
use opencoi.Outbox.{
  WebhookEndpointRow, DomainEventRow, WebhookDeliveryRow, Database, succeeded,
  webhook_endpoint_is_active,
}
use opencoi.Outbox.Examples.{
  endpoint, input, new_id, before, after, event, delivery, publication, url, target, unavailable,
  attempt, attempts, batch, batch_test,
}
use opencoi.Outbox.Publish.{is_target, matches_type, last_sequence}
use opencoi.Outbox.Feed.{DomainEvent, list_domain_events}
use opencoi.Outbox.Claim.{
  ClaimedDeliveryRow, granted, claim_delivery, load_claimed, leased_row, is_delivery_due, has_token,
  holds, release_disabled_claim, recover_stale_deliveries,
}
use opencoi.Outbox.Batch.{
  try_delivery, after_resolution, run_webhook_delivery_batch, complete_delivery,
}
use opencoi.Outbox.Steps.{Steps, done, after_step, publishes, recovers, claims}
use opencoi.Outbox.Keys.{IsConsistent, Steps-IsConsistent}
use opencoi.Outbox.Refines.{IsFair, run_webhook_delivery_batch-Steps}
use opencoi.Outbox.Fencing.{Steps-fenced}
use opencoi.Outbox.Progress.{Attempted, IsDeadLetter, delivery-progresses}
use opencoi.Outbox.Final.{Steps-stays_succeeded}
use opencoi.Outbox.Numbers.{events_of_organization, IsNumbered, Steps-IsNumbered}
use opencoi.Outbox.Pages.{list_domain_events-pages}
use opencoi.Outbox.FanOut.{IsTo, publish_domain_event-reaches}
use opencoi.Outbox.Sending.{IsGuardedBy, WasDue, IsSafe, try_delivery_when_due}
use opencoi.Outbox.Bounds.{run_webhook_delivery_batch-bounds}

abbrev no_token : Text → Bool
no_token t = false

fair : (i : ℕ) → IsFair no_token (attempts i)
fair i = record { fresh = refl; resolution = λ db. done; delivery = λ db. done }

after-IsConsistent : IsConsistent after
after-IsConsistent = record { sound = (ground arith, tt); keyed = (tt, tt) }

Steps-IsConsistent_example : IsConsistent (batch 20 after).0
unfolding batch
Steps-IsConsistent_example =
    Steps-IsConsistent no_token after _
      (run_webhook_delivery_batch-Steps no_token 20 20 10000 attempts after fair
        after-IsConsistent.keyed)
      after-IsConsistent

run_webhook_delivery_batch-Steps_example :
    Steps no_token after (run_webhook_delivery_batch 20 20 10000 attempts after).0
run_webhook_delivery_batch-Steps_example =
    run_webhook_delivery_batch-Steps no_token 20 20 10000 attempts after fair
      after-IsConsistent.keyed

run_webhook_delivery_batch-bounds_example : (1 ≤ 100) × (0 + 1 + 0 ≤ 1 + 0)
unfolding batch recover_stale_deliveries
run_webhook_delivery_batch-bounds_example =
    run_webhook_delivery_batch-bounds 20 20 10000 attempts after
      (record { claimed = 1; succeeded = 0; failed = 1; dead_lettered = 0 })
      (unfold batch in batch_test.0)

abbrev old_claim : ClaimedDeliveryRow
old_claim = record {
  id = codes "d1";
  organization_id = codes "o1";
  endpoint_id = codes "w1";
  attempt_count = 1;
  claim_token = codes "t0";
  endpoint_url = codes "https://a.example/";
  signing_secret_ciphertext = codes "s";
  event = event;
}

-- Another worker leases the delivery; the claim before it changes nothing any more.
Steps-fenced_example :
    let now = (claim_delivery (codes "o1") (codes "d1") (codes "t1") 20 after).0 in
    (complete_delivery old_claim unavailable 40 now ≡ (now, false))
    × (release_disabled_claim old_claim 40 now ≡ (now, false))
unfolding text_eq holds has_token
Steps-fenced_example =
    Steps-fenced old_claim (λ t. text_eq t (codes "t0")) refl after _ unavailable 40 (refl, tt)
      (after_step (claims (codes "o1") (codes "d1") (codes "t1") 20 after refl) done)

delivery-progresses_example :
    (t : ℕ) × ((at : ℕ)
      → t ≤ at
      → (token : Text) → Attempted token at after delivery ⊎ IsDeadLetter at after delivery)
unfolding webhook_endpoint_is_active any text_eq
delivery-progresses_example =
    delivery-progresses after delivery after-IsConsistent.keyed after-IsConsistent.sound
      (Memᴰ.head refl)
      (record { endpoint = refl; event = event; event_there = Memᴰ.head refl; event_is = refl })
      (λ q. ground arith) (λ q. ground arith)

abbrev delivered : WebhookDeliveryRow
delivered = record delivery {
  status = succeeded;
  attempt_count = 1;
  delivered_at = some 30;
  updated_at = 30;
}

abbrev settled : Database
settled = record after { webhook_deliveries = delivered ∷ [] }

Steps-stays_succeeded_example :
    Memᴰ delivered (recover_stale_deliveries 1000000 settled).0.webhook_deliveries
Steps-stays_succeeded_example =
    Steps-stays_succeeded no_token settled _ delivered (ground arith, tt)
      (after_step (recovers 1000000 settled) done) (Memᴰ.head refl) refl

Steps-IsNumbered_example :
    IsNumbered (codes "o1") after.domain_events
    × (map
          (λ (e : DomainEventRow). e.sequence_number)
          (events_of_organization (codes "o1") after.domain_events)
        ≡ 1 ∷ [])
unfolding last_sequence text_eq
Steps-IsNumbered_example =
    Steps-IsNumbered (codes "o1") no_token before after tt
      (after_step (publishes input new_id before after event publication) done)

list_domain_events-pages_example :
    (map
        (λ (e : DomainEvent). e.sequence)
        (list_domain_events (codes "o1") 0 50 after.domain_events).events
      ≡ 1 ∷ [])
    × ((list_domain_events (codes "o1") 0 50 after.domain_events).has_more ≡ false)
unfolding last_sequence text_eq
list_domain_events-pages_example =
    list_domain_events-pages (codes "o1") 0 50 after.domain_events ((λ k. refl), tt)

publish_domain_event-reaches_example :
    ((d : WebhookDeliveryRow)
      → (Memᴰ d after.webhook_deliveries) ↔ (Memᴰ d [] ⊎ IsTo input new_id (endpoint ∷ []) d))
    × ((w : WebhookEndpointRow)
        → Memᴰ w (endpoint ∷ [])
        → is_target (codes "o1") (codes "vendor.created") w ≡ true
        → (at : ℕ) → 10 ≤ at
        → (token : Text)
        → (row : ClaimedDeliveryRow) × ((claim_delivery w.organization_id
              (codes "d1")
              token
              at
              after).1
            ≡ granted row)
          × (row.attempt_count ≡ 1))
unfolding filter is_target matches_type text_eq any
publish_domain_event-reaches_example =
    publish_domain_event-reaches input new_id before after event tt publication

abbrev parse : Text → Url
parse u = url

abbrev no_host : Text → Address
no_host u = no_address

abbrev lookup : Text → List LookupAddress
lookup u = record { address = ipv4 93 184 216 34; family = 4 } ∷ []

guarded : IsGuardedBy parse no_host lookup attempt
unfolding resolve_public_webhook_target addresses_of select_target is_refused
    is_public_webhook_address is_disallowed_ipv4 any
guarded = record { guard = λ u t e. ground arith }

abbrev claimed : ClaimedDeliveryRow
claimed = record old_claim { claim_token = codes "t1" }

try_delivery_when_due_example :
    (due : WasDue (codes "o1") (codes "d1") 20 after claimed) × IsSafe parse 10000 attempt claimed
      (claim_delivery (codes "o1") (codes "d1") (codes "t1") 20 after).0
      target
    × (target.url ≡ parse due.receiver.url)
unfolding claim_delivery load_claimed leased_row is_delivery_due has_token update_where find text_eq
    webhook_endpoint_is_active any try_delivery after_resolution
try_delivery_when_due_example =
    try_delivery_when_due parse no_host lookup 10000 attempt (codes "o1") (codes "d1") after claimed
      target guarded after-IsConsistent.keyed refl refl
