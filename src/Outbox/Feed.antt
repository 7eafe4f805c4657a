-- ===== src/Outbox/Feed.antt =====
-- server/services/domainEvents.ts: how events are read.
use opencoi.Base.{
  ℕ, ◌+◌, Bool, ◌&&◌, Option, none, some, List, ltb, if◌then◌else◌, Text, text_eq, filter, find,
  take, length, compare, Ordering, map,
}
use opencoi.Base.Sort.{sort, or_else, compare_texts}
use opencoi.Outbox.{DomainEventRow, is_event}

pub record Resource : Type 0 where
  pub type : Text
  pub id : Option Text

-- The data is its JSON text.
pub record DomainEvent : Type 0 where
  pub id : Text
  pub sequence : ℕ
  pub type : Text
  pub occurred_at : ℕ
  pub resource : Resource
  pub data_json : Text

unfoldable pub domain_event_from_row : DomainEventRow → DomainEvent
domain_event_from_row row = record {
  id = row.id;
  sequence = row.sequence_number;
  type = row.type;
  occurred_at = row.occurred_at;
  resource = record { type = row.resource_type; id = row.resource_id };
  data_json = row.payload_json;
}

-- `ORDER BY sequence_number, id`
unfoldable pub compare_events : DomainEventRow → DomainEventRow → Ordering
compare_events l r = or_else (compare l.sequence_number r.sequence_number) (compare_texts l.id r.id)

pub record Page : Type 0 where
  pub events : List DomainEvent
  pub has_more : Bool

-- `Math.min(Math.max(limit, 1), most)`
abbrev pub clamp_limit : ℕ → ℕ → ℕ
clamp_limit limit most =
    let low = if ltb limit 1 then 1 else limit in if ltb low most then low else most

unfoldable pub is_after : Text → ℕ → DomainEventRow → Bool
is_after organization_id after_sequence e =
    text_eq e.organization_id organization_id && ltb after_sequence e.sequence_number

unfoldable pub list_domain_events : Text → ℕ → ℕ → List DomainEventRow → Page
list_domain_events organization_id after_sequence limit events =
    let size = clamp_limit limit 100 in
    let rows =
      take (size + 1)
        (sort compare_events (filter (is_after organization_id after_sequence) events)) in
    record {
      events = map domain_event_from_row (take size rows);
      has_more = ltb size (length rows);
    }

unfoldable pub get_domain_event : Text → Text → List DomainEventRow → Option DomainEvent
get_domain_event organization_id event_id events =
    elim (find (is_event organization_id event_id) events) [
      | none ↦ none
      | some row ↦ some (domain_event_from_row row)
    ]
