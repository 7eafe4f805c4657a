-- ===== src/Audit/Json.antt =====
-- server/audit.ts: `canonicalize` of an event, whose members stand in the order of their names.
use opencoi.Base.{
  ℕ, suc, ◌+◌, ◌/◌, ◌%◌, Bool, ◌&&◌, ◌||◌, Option, none, some, [], ◌∷◌, ◌++◌, leb, ltb, ◌==◌,
  if◌then◌else◌, Text, codes, zero,
}
use opencoi.Audit.{AuditActorType, user, vendor, system, AuditEventRow, Platform}

-- The decimal digits of a number before a text; a number has no more digits than itself and one.
unfoldable pub decimal_before : ℕ → ℕ → Text → Text
decimal_before zero n rest = (48 + n % 10) ∷ rest
decimal_before (suc fuel) n rest =
    let more = decimal_before fuel (n / 10) ((48 + n % 10) ∷ rest) in
    if ltb n 10 then (48 + n) ∷ rest else more

-- `JSON.stringify` of a natural number
abbrev pub json_number : ℕ → Text
json_number n = decimal_before n n []

abbrev pub hex_digit : ℕ → ℕ
hex_digit n = if ltb n 10 then 48 + n else 87 + n

-- \u and four hexadecimal digits
unfoldable pub unicode_escape : ℕ → Text
unicode_escape c =
    92
    ∷ 117
    ∷ hex_digit (c / 4096)
    ∷ hex_digit (c / 256 % 16)
    ∷ hex_digit (c / 16 % 16)
    ∷ hex_digit (c % 16)
    ∷ []

abbrev pub is_high_surrogate : ℕ → Bool
is_high_surrogate c = leb 0xd800 c && leb c 0xdbff

abbrev pub is_low_surrogate : ℕ → Bool
is_low_surrogate c = leb 0xdc00 c && leb c 0xdfff

-- A code unit that is no part of a pair of surrogates.
unfoldable pub json_char : ℕ → Text
json_char c =
    if c == 34 || c == 92
    then 92 ∷ c ∷ []
    else if c == 8
    then codes "\\b"
    else if c == 9
    then codes "\\t"
    else if c == 10
    then codes "\\n"
    else if c == 12
    then codes "\\f"
    else if c == 13
    then codes "\\r"
    else if ltb c 32 || is_high_surrogate c || is_low_surrogate c
    then unicode_escape c
    else c ∷ []

unfoldable pub json_chars : Text → Text
json_chars [] = []
json_chars (c ∷ []) = json_char c
json_chars (c ∷ d ∷ s) =
    let pair = json_chars s in
    let single = json_chars (d ∷ s) in
    if is_high_surrogate c && is_low_surrogate d then c ∷ d ∷ pair else json_char c ++ single

-- `JSON.stringify` of a string
unfoldable pub json_string : Text → Text
json_string s = 34 ∷ (json_chars s ++ (34 ∷ []))

unfoldable pub json_optional : Option Text → Text
unfolding json_string
json_optional none = codes "null"
json_optional (some s) = json_string s

abbrev pub actor_type_text : AuditActorType → Text
actor_type_text user = codes "user"
actor_type_text vendor = codes "vendor"
actor_type_text system = codes "system"

-- `"name":value`
abbrev pub member : Text → Text → Text
member name value = 34 ∷ (name ++ (34 ∷ 58 ∷ value))

-- What `hashEvent` gives to the hash: `canonicalize` of the event with the canonical text of its
-- metadata and the version 1.
unfoldable pub event_text : Text → AuditEventRow → Text → Text → Text
event_text organization_id e metadata previous_hash =
    codes "{"
    ++ member (codes "action") (json_string e.action)
    ++ codes ","
    ++ member (codes "actorType") (json_string (actor_type_text e.actor_type))
    ++ codes ","
    ++ member (codes "actorUserId") (json_optional e.actor_user_id)
    ++ codes ","
    ++ member (codes "entityId") (json_optional e.entity_id)
    ++ codes ","
    ++ member (codes "entityType") (json_string e.entity_type)
    ++ codes ","
    ++ member (codes "id") (json_string e.id)
    ++ codes ","
    ++ member (codes "ipAddress") (json_optional e.ip_address)
    ++ codes ","
    ++ member (codes "metadata") metadata
    ++ codes ","
    ++ member (codes "occurredAt") (json_string e.occurred_at)
    ++ codes ","
    ++ member (codes "organizationId") (json_string organization_id)
    ++ codes ","
    ++ member (codes "previousHash") (json_string previous_hash)
    ++ codes ","
    ++ member (codes "sequenceNumber") (json_number e.sequence_number)
    ++ codes ","
    ++ member (codes "userAgent") (json_optional e.user_agent)
    ++ codes ","
    ++ member (codes "version") (codes "1")
    ++ codes "}"

unfoldable pub hash_event : Platform → Text → AuditEventRow → Text → Text → Text
hash_event platform organization_id e metadata previous_hash =
    platform.sha256_hex (event_text organization_id e metadata previous_hash)
