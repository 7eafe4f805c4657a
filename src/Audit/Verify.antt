-- ===== src/Audit/Verify.antt =====
-- server/audit.ts: `verifyAuditChain`.
pub mod Chain
use opencoi.Base.{
  ℕ, suc, ◌+◌, ◌-◌, Bool, true, false, ◌&&◌, not, Option, none, some, List, [], ◌∷◌, leb, ltb, ◌==◌,
  if◌then◌else◌, Text, text_eq, truthy,
}
use opencoi.Audit.{AuditEventRow, Platform, genesis_hash, events_of}
use opencoi.Audit.Json.{hash_event}

pub data AuditChainError : Type 0 where
  wrong_sequence wrong_previous_hash not_json wrong_event_hash : AuditChainError

-- Valid with the number of events checked, or the events checked before the first error, with its
-- row's sequence number.
pub data AuditChainVerification : Type 0 where
  valid : ℕ → AuditChainVerification
  invalid : ℕ → AuditChainError → ℕ → AuditChainVerification

-- The checks of the metadata and the hash.
unfoldable pub hash_error :
    Platform → Text → Text → AuditEventRow → Option Text → Option AuditChainError
hash_error platform organization_id previous_hash row none = some not_json
hash_error platform organization_id previous_hash row (some metadata) =
    if text_eq row.event_hash (hash_event platform organization_id row metadata previous_hash)
    then none
    else some wrong_event_hash

-- One round of the loop: the error of a row.
unfoldable pub row_error : Platform → Text → Text → ℕ → AuditEventRow → Option AuditChainError
unfolding hash_error
row_error platform organization_id previous_hash expected_sequence row =
    if not (row.sequence_number == expected_sequence)
    then some wrong_sequence
    else if not (text_eq row.previous_hash previous_hash)
    then some wrong_previous_hash
    else hash_error platform organization_id previous_hash row
        (platform.recanonicalize row.metadata_json)

-- The loop, from the events checked before.
unfoldable pub verify_rows :
    Platform → Text → Text → ℕ → List AuditEventRow → AuditChainVerification
verify_rows platform organization_id previous_hash checked [] = valid checked
verify_rows platform organization_id previous_hash checked (row ∷ rows) =
    elim (row_error platform organization_id previous_hash (checked + 1) row) [
      | some e ↦ invalid checked e row.sequence_number
      | none ↦ verify_rows platform organization_id row.event_hash (checked + 1) rows
    ]

-- `none` where `verifyAuditChain` throws.
unfoldable pub verify_audit_chain :
    Platform → Text → List AuditEventRow → Option AuditChainVerification
verify_audit_chain platform organization_id rows =
    if not (truthy organization_id)
    then none
    else some (verify_rows platform organization_id genesis_hash 0 (events_of organization_id rows))
