-- ===== src/Outbox/Numbers.antt =====
-- server/services/domainEvents.ts: how the events of an organization are numbered.
use opencoi.Base.{
  ℕ, zero, suc, ◌≡◌, refl, sym, subst, ap, ◌∙◌, Bool, true, false, List, [], ◌∷◌, arith, Text,
  text_eq, text_eq_sound, Bool-cases, inl, inr, filter, map,
}
use opencoi.Outbox.{DomainEventRow, Database}
use opencoi.Outbox.Publish.{
  PublishInput, last_sequence, new_domain_event, publish_domain_event-IsPublished,
}
use opencoi.Outbox.Endpoints.{
  create_webhook_endpoint, set_webhook_endpoint_status, replay_webhook_delivery,
}
use opencoi.Outbox.Claim.{claim_delivery, release_disabled_claim, recover_stale_deliveries}
use opencoi.Outbox.Batch.{complete_delivery}
use opencoi.Outbox.Steps.{
  Step, publishes, creates, sets_status, replays, recovers, claims, releases, completes, Steps,
  done, after_step,
}
use opencoi.Outbox.Sound.{commit_claim_either}

abbrev pub is_of : Text → DomainEventRow → Bool
is_of o e = text_eq e.organization_id o

-- The last event first.
abbrev pub events_of_organization : Text → List DomainEventRow → List DomainEventRow
events_of_organization o events = filter (is_of o) events

-- Each event of an organization has the number after the last one before it.
abbrev pub IsNumbered : Text → List DomainEventRow → Type 0
IsNumbered o [] = Unit
IsNumbered o (e ∷ es) =
    (is_of o e ≡ true → e.sequence_number ≡ suc (last_sequence o es)) × IsNumbered o es

-- n, n - 1, ..., 1
abbrev pub down_from : ℕ → List ℕ
down_from zero = []
down_from (suc n) = suc n ∷ down_from n

pub last_sequence-here :
    (o : Text) (e : DomainEventRow) (es : List DomainEventRow)
    → is_of o e ≡ true
    → e.sequence_number ≡ suc (last_sequence o es)
    → last_sequence o (e ∷ es) ≡ suc (last_sequence o es)
unfolding last_sequence
last_sequence-here o e es h k = ground arith

pub last_sequence-there :
    (o : Text) (e : DomainEventRow) (es : List DomainEventRow)
    → is_of o e ≡ false
    → last_sequence o (e ∷ es) ≡ last_sequence o es
unfolding last_sequence
last_sequence-there o e es h = ground arith

numbers-down_from :
    (o : Text) (es : List DomainEventRow)
    → IsNumbered o es
    → map (λ (e : DomainEventRow). e.sequence_number) (events_of_organization o es)
      ≡ down_from (last_sequence o es)
unfolding filter
numbers-down_from o [] h = unfold last_sequence in refl
numbers-down_from o (e ∷ es) h = elim (Bool-cases (is_of o e)) [
  | inl k ↦
      rw (last_sequence-here o e es k (h.0 k), k, h.0 k)
        (ap (λ ns. suc (last_sequence o es) ∷ ns) (numbers-down_from o es h.1))
  | inr k ↦ rw (last_sequence-there o e es k, k) (numbers-down_from o es h.1)
]

new_domain_event-IsNumbered :
    (o : Text) (input : PublishInput) (es : List DomainEventRow)
    → IsNumbered o es
    → IsNumbered o (new_domain_event input es ∷ es)
unfolding new_domain_event
new_domain_event-IsNumbered o input es h =
    (λ k. rw (text_eq_sound input.organization_id o k) (omega arith), h)

Step-IsNumbered :
    (o : Text) {taken : Text → Bool} {a b : Database}
    → Step taken a b
    → IsNumbered o a.domain_events
    → IsNumbered o b.domain_events
unfolding set_webhook_endpoint_status replay_webhook_delivery recover_stale_deliveries
    claim_delivery release_disabled_claim create_webhook_endpoint complete_delivery
Step-IsNumbered o (publishes input new_id a b event e) h =
    let p = publish_domain_event-IsPublished input new_id a b event e in
    subst (IsNumbered o) (ap (λ x. x ∷ a.domain_events) (sym p.appended) ∙ sym p.events)
      (new_domain_event-IsNumbered o input a.domain_events h)
Step-IsNumbered o (creates input a b e) h = ground arith
Step-IsNumbered o (sets_status p id s at a) h = h
Step-IsNumbered o (replays p id at a) h = h
Step-IsNumbered o (recovers now a) h = h
Step-IsNumbered o (claims p id token at a q) h =
    commit_claim_either (λ x. IsNumbered o x.domain_events) _ _ a _ h h
Step-IsNumbered o (releases row now a) h = h
Step-IsNumbered o (completes row result at a k) h = h

Steps-keep_numbers :
    (o : Text) (taken : Text → Bool) (a b : Database)
    → Steps taken a b
    → IsNumbered o a.domain_events
    → IsNumbered o b.domain_events
Steps-keep_numbers o taken a b done h = h
Steps-keep_numbers o taken a b (after_step s p) h =
    Steps-keep_numbers o taken _ b p (Step-IsNumbered o s h)

-- Whatever the services do, in any order, the events of an organization are numbered without a gap and
-- without a repetition: the last first, their numbers are n, n - 1 and so on to 1, where n is the number
-- of its last event.
pub Steps-IsNumbered :
    (o : Text) (taken : Text → Bool) (a b : Database)
    → IsNumbered o a.domain_events
    → Steps taken a b
    → IsNumbered o b.domain_events
      × (map (λ (e : DomainEventRow). e.sequence_number) (events_of_organization o b.domain_events)
          ≡ down_from (last_sequence o b.domain_events))
Steps-IsNumbered o taken a b h p =
    let k = Steps-keep_numbers o taken a b p h in (k, numbers-down_from o b.domain_events k)
