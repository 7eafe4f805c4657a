-- ===== src/Audit/Append.antt =====
-- server/audit.ts: `appendAuditEvent` and `listAuditEvents`.
use opencoi.Base.{
  ℕ, ◌+◌, Bool, ◌&&◌, ◌||◌, not, Option, none, some, List, [], ◌∷◌, ltb, if◌then◌else◌, Text,
  text_eq, any, trim, truthy, take, filter,
}
use opencoi.Audit.{AuditActorType, AuditEventRow, Platform, genesis_hash, events_of}
use opencoi.Audit.Json.{hash_event}

-- The input with its defaults filled in (a random id, the clock) and the canonical text of its
-- metadata.
pub record AppendAuditEventInput : Type 0 where
  pub id : Text
  pub actor_type : AuditActorType
  pub actor_user_id : Option Text
  pub action : Text
  pub entity_type : Text
  pub entity_id : Option Text
  pub occurred_at : Text
  pub ip_address : Option Text
  pub user_agent : Option Text
  pub metadata : Text

-- The number and the hash of the last event, those given where there is none.
unfoldable pub last_link : ℕ × Text → List AuditEventRow → ℕ × Text
last_link link [] = link
last_link link (r ∷ rs) = last_link (r.sequence_number, r.event_hash) rs

-- The event before its hash.
unfoldable pub unhashed_event : Text → AppendAuditEventInput → ℕ × Text → AuditEventRow
unhashed_event organization_id input previous = record {
  id = input.id;
  organization_id = organization_id;
  sequence_number = previous.0 + 1;
  actor_type = input.actor_type;
  actor_user_id = input.actor_user_id;
  action = trim input.action;
  entity_type = trim input.entity_type;
  entity_id = input.entity_id;
  occurred_at = input.occurred_at;
  ip_address = input.ip_address;
  user_agent = input.user_agent;
  metadata_json = input.metadata;
  previous_hash = previous.1;
  event_hash = [];
}

unfoldable pub new_event : Platform → Text → AppendAuditEventInput → ℕ × Text → AuditEventRow
new_event platform organization_id input previous =
    let e = unhashed_event organization_id input previous in
    record e { event_hash = hash_event platform organization_id e input.metadata previous.1 }

-- The keys of the table that a new row may not repeat; its sequence number is above all others.
unfoldable pub conflicts : AuditEventRow → AuditEventRow → Bool
conflicts e r =
    text_eq r.id e.id
    || text_eq r.organization_id e.organization_id && text_eq r.event_hash e.event_hash

-- `none` where `appendAuditEvent` throws; the transaction is rolled back then.
unfoldable pub append_audit_event :
    Platform → Text → AppendAuditEventInput → List AuditEventRow → Option (List AuditEventRow)
append_audit_event platform organization_id input rows =
    if not (truthy organization_id)
      || not (truthy (trim input.action))
      || not (truthy (trim input.entity_type))
    then none
    else (let e =
          new_event platform organization_id input
            (last_link (0, genesis_hash) (events_of organization_id rows)) in
        if any (conflicts e) rows then none else some (e ∷ rows))

-- `listAuditEvents`: at most 500 events after a sequence number.
unfoldable pub list_audit_events : Text → ℕ → ℕ → List AuditEventRow → Option (List AuditEventRow)
list_audit_events organization_id after_sequence limit rows =
    if not (truthy organization_id)
    then none
    else (let low = if ltb limit 500 then limit else 500 in
        some (
          take (if ltb 1 low then low else 1) (
            filter (λ (r : AuditEventRow). ltb after_sequence r.sequence_number)
              (events_of organization_id rows))))
