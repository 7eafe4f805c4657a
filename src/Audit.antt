-- ===== src/Audit.antt =====
-- server/audit.ts: the audit chain of the organizations. SHA-256 and the clock are not part of the
-- source; the stored metadata is its canonical text.
pub mod Json
pub mod Append
pub mod Verify
mod Examples
use opencoi.Base.{
  ℕ, zero, suc, ◌+◌, Bool, true, false, ◌&&◌, ◌||◌, not, Option, none, some, List, [], ◌∷◌, ◌++◌,
  ◌==◌, if◌then◌else◌, Text, text_eq, filter, compare, Ordering, ◌>>=◌, trim, truthy,
}
use opencoi.Base.Sort.{sort}

pub data AuditActorType : Type 0 where
  user vendor system : AuditActorType

pub record AuditEventRow : Type 0 where
  pub id : Text
  pub organization_id : Text
  pub sequence_number : ℕ
  pub actor_type : AuditActorType
  pub actor_user_id : Option Text
  pub action : Text
  pub entity_type : Text
  pub entity_id : Option Text
  pub occurred_at : Text
  pub ip_address : Option Text
  pub user_agent : Option Text
  pub metadata_json : Text
  pub previous_hash : Text
  pub event_hash : Text

unfoldable pub zeros : ℕ → Text
zeros zero = []
zeros (suc n) = 48 ∷ zeros n

-- GENESIS_HASH
abbrev pub genesis_hash : Text
genesis_hash = zeros 64

-- What node:crypto and `JSON.parse` do: the SHA-256 of a text's UTF-8 in hexadecimal, and the
-- canonical text of what `JSON.parse` reads in a text, `none` where that throws.
pub record Platform : Type 0 where
  pub sha256_hex : Text → Text
  pub recanonicalize : Text → Option Text

abbrev pub by_sequence : AuditEventRow → AuditEventRow → Ordering
by_sequence l r = compare l.sequence_number r.sequence_number

-- `SELECT * ... WHERE organization_id = ? ORDER BY sequence_number`
unfoldable pub events_of : Text → List AuditEventRow → List AuditEventRow
events_of organization_id rows =
    sort by_sequence
      (filter (λ (r : AuditEventRow). text_eq r.organization_id organization_id) rows)
