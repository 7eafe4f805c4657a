-- ===== src/Webhooks.antt =====
-- server/services/webhooks.ts: which addresses a webhook may be sent to. An address that `isIP` takes
-- is its four octets, or its number of 128 bits.
pub mod Blocks
pub mod Halves
pub mod Ipv6
pub mod Target
pub mod Written
mod Examples
use opencoi.Base.{
  ℕ, ◌+◌, ◌-◌, ◌*◌, ◌/◌, ◌^◌, Bool, true, false, not, ◌&&◌, ◌||◌, Option, none, some, List, [], ◌∷◌,
  leb, ◌==◌, if◌then◌else◌, Text, any, truthy,
}

pub data Address : Type 0 where
  ipv4 : ℕ → ℕ → ℕ → ℕ → Address
  ipv6 : ℕ → Address
  no_address : Address

unfoldable pub is_disallowed_ipv4 : ℕ → ℕ → ℕ → Bool
is_disallowed_ipv4 a b c =
    a == 0
    || a == 10
    || a == 127
    || a == 100 && leb 64 b && leb b 127
    || a == 169 && b == 254
    || a == 172 && leb 16 b && leb b 31
    || a == 192 && b == 0
    || a == 192 && b == 168
    || a == 192 && b == 0 && c == 2
    || a == 198 && (b == 18 || b == 19)
    || a == 198 && b == 51 && c == 100
    || a == 203 && b == 0 && c == 113
    || leb 224 a

-- The number of the first three groups of an IPv6 address, the others 0.
abbrev pub groups : ℕ → ℕ → ℕ → ℕ
groups g h i = g * 2 ^ 112 + h * 2 ^ 96 + i * 2 ^ 80

-- `ipv6Prefix` of two numbers: their shifts are equal.
unfoldable pub ipv6_prefix : ℕ → ℕ → ℕ → Bool
ipv6_prefix address prefix bits = address / 2 ^ (128 - bits) == prefix / 2 ^ (128 - bits)

unfoldable pub is_disallowed_ipv6 : ℕ → Bool
unfolding ipv6_prefix
is_disallowed_ipv6 n =
    not (ipv6_prefix n (groups 0x2000 0 0) 3)
    || ipv6_prefix n (groups 0x2001 0 0) 23
    || ipv6_prefix n (groups 0x2001 0xdb8 0) 32
    || ipv6_prefix n (groups 0x2002 0 0) 16
    || ipv6_prefix n (groups 0x2620 0x4f 0x8000) 48
    || ipv6_prefix n (groups 0x3fff 0 0) 20

unfoldable pub is_public_webhook_address : Address → Bool
is_public_webhook_address (ipv4 a b c d) = not (is_disallowed_ipv4 a b c)
is_public_webhook_address (ipv6 n) = not (is_disallowed_ipv6 n)
is_public_webhook_address no_address = false

-- The parts of a parsed URL that are looked at.
pub data Protocol : Type 0 where
  https http other_protocol : Protocol

pub record Url : Type 0 where
  pub protocol : Protocol
  pub username : Text
  pub password : Text
  pub hash : Text
  pub hostname : Text

-- An answer of the lookup: the family that it names, and what `isIP` makes of its address.
pub record LookupAddress : Type 0 where
  pub address : Address
  pub family : ℕ

pub record PublicWebhookTarget : Type 0 where
  pub url : Url
  pub address : Address
  pub family : ℕ

abbrev pub is_permitted : Bool → Protocol → Bool
is_permitted allow_http https = true
is_permitted allow_http http = allow_http
is_permitted allow_http other_protocol = false

-- `isIP` as a number
abbrev pub family_of : Address → ℕ
family_of (ipv4 a b c d) = 4
family_of (ipv6 n) = 6
family_of no_address = 0

-- The addresses of a host: itself where it is an address, else what the lookup answers.
unfoldable pub addresses_of : Address → List LookupAddress → List LookupAddress
addresses_of no_address answers = answers
addresses_of host answers = record { address = host; family = family_of host } ∷ []

unfoldable pub is_refused : LookupAddress → Bool
is_refused l = not (l.family == 4 || l.family == 6) || not (is_public_webhook_address l.address)

unfoldable pub select_target : Url → List LookupAddress → Option PublicWebhookTarget
select_target url [] = none
select_target url (l ∷ ls) =
    if any is_refused (l ∷ ls)
    then none
    else some (record { url = url; address = l.address; family = l.family })

-- `resolvePublicWebhookTarget` of a URL that parses, with its host as an address, if it is one, and
-- the answers of the lookup.
unfoldable pub resolve_public_webhook_target :
    Bool → Url → Address → List LookupAddress → Option PublicWebhookTarget
resolve_public_webhook_target allow_http url host answers =
    if not (is_permitted allow_http url.protocol)
      || truthy url.username
      || truthy url.password
      || truthy url.hash
      || not (truthy url.hostname)
    then none
    else select_target url (addresses_of host answers)
