-- ===== src/Audit/Examples.antt =====
-- Two events of one organization, with a hash that keeps its text.
use opencoi.Base.{
  ◌≡◌, ◌↔◌, refl, true, Option, none, some, List, [], ◌∷◌, codes, trim, trim_start, trim_end,
  is_space, text_eq, any, filter, truthy, length,
}
use opencoi.Base.Sort.{sort, insert_sorted}
use opencoi.Audit.{user, AuditEventRow, Platform, events_of, genesis_hash, zeros}
use opencoi.Audit.Json.{
  hash_event, event_text, json_string, json_chars, json_char, json_optional, decimal_before,
}
use opencoi.Audit.Append.{
  AppendAuditEventInput, append_audit_event, new_event, unhashed_event, last_link, conflicts,
}
use opencoi.Audit.Verify.{
  verify_audit_chain, verify_rows, row_error, hash_error, AuditChainVerification, valid, invalid,
  wrong_event_hash,
}
use opencoi.Audit.Verify.Chain.{IsChain, verify_audit_chain-valid_iff, append_audit_event-valid}

abbrev plain : Platform
plain = record { sha256_hex = λ t. t; recanonicalize = some }

abbrev login : AppendAuditEventInput
login = record {
  id = codes "e1";
  actor_type = user;
  actor_user_id = some (codes "u1");
  action = codes " login ";
  entity_type = codes "session";
  entity_id = none;
  occurred_at = codes "2026-01-01T00:00:00.000Z";
  ip_address = none;
  user_agent = some (codes "a\"b");
  metadata = codes "{}";
}

appended : AppendAuditEventInput → List AuditEventRow → Option (List AuditEventRow)
unfolding append_audit_event new_event unhashed_event last_link conflicts events_of sort
    insert_sorted filter any text_eq trim trim_start trim_end is_space hash_event event_text
    json_string json_chars json_char json_optional decimal_before zeros
appended input rows = append_audit_event plain (codes "o1") input rows

rows_after : AppendAuditEventInput → List AuditEventRow → List AuditEventRow
rows_after input rows = elim (appended input rows) [ none ↦ [] | some r ↦ r ]

first : List AuditEventRow
first = rows_after login []

first_appended : append_audit_event plain (codes "o1") login [] ≡ some first
unfolding first rows_after appended
first_appended = refl

-- A later change of the action is found.
verified : List AuditEventRow → Option AuditChainVerification
unfolding verify_audit_chain verify_rows row_error hash_error events_of sort insert_sorted filter
    text_eq hash_event event_text json_string json_chars json_char json_optional decimal_before
    zeros
verified rows = verify_audit_chain plain (codes "o1") rows

tampered : List AuditEventRow → List AuditEventRow
tampered [] = []
tampered (r ∷ rs) = record r { action = codes "logout" } ∷ rs

tampering_found : verified (tampered first) ≡ some (invalid 0 wrong_event_hash 1)
unfolding verified tampered first rows_after appended
tampering_found = refl

none_valid : verify_audit_chain plain (codes "o1") [] ≡ some (valid 0)
unfolding verified
none_valid = refl

append_audit_event-valid_example : verify_audit_chain plain (codes "o1") first ≡ some (valid 1)
append_audit_event-valid_example =
    append_audit_event-valid plain (codes "o1") login [] first 0 refl none_valid first_appended

verify_audit_chain-valid_iff_example :
    (verify_audit_chain plain (codes "o1") first ≡ some (valid 1)) ↔ (
      (truthy (codes "o1") ≡ true)
      × IsChain plain (codes "o1") (0, genesis_hash) (events_of (codes "o1") first)
      × (1 ≡ length (events_of (codes "o1") first)))
verify_audit_chain-valid_iff_example = verify_audit_chain-valid_iff plain (codes "o1") first 1
