-- ===== src/Security.antt =====
-- server/security.ts: the hashes of opaque tokens. The hexadecimal SHA-256, keyed by a pepper if there
-- is one, is a parameter.
use opencoi.Base.{
  ℕ, ◌+◌, ◌-◌, ◌*◌, Bool, false, not, ◌&&◌, ◌||◌, Option, none, some, List, [], ◌∷◌, leb, ◌==◌,
  if◌then◌else◌, Text, text_eq, any, length, truthy, is_digit,
}

-- `createHmac` with a pepper, `createHash` without.
abbrev pub Digest : Type 0
Digest = Option Text → Text → Text

-- An empty pepper is none.
abbrev pub pepper_or_none : Option Text → Option Text
pepper_or_none none = none
pepper_or_none (some pepper) = if truthy pepper then some pepper else none

unfoldable pub hash_opaque_token : Digest → Text → Option Text → Option Text
hash_opaque_token digest token pepper =
    if truthy token then some (digest (pepper_or_none pepper) token) else none

-- `[a-f0-9]` with the flag i
unfoldable pub is_hex : ℕ → Bool
unfolding is_digit
is_hex c = is_digit c || leb 97 c && leb c 102 || leb 65 c && leb c 70

-- The value of such a digit.
abbrev pub hex_value : ℕ → ℕ
hex_value c = if leb 97 c then c - 87 else if leb 65 c then c - 55 else c - 48

-- `Buffer.from(text, "hex")`, which stops before the first pair that is not hexadecimal.
unfoldable pub from_hex : Text → List ℕ
from_hex [] = []
from_hex (c ∷ []) = []
from_hex (c ∷ d ∷ s) =
    let rest = from_hex s in
    if is_hex c && is_hex d then (hex_value c * 16 + hex_value d) ∷ rest else []

-- `/^[a-f0-9]{64}$/i`
unfoldable pub is_hash : Text → Bool
is_hash hash = length hash == 64 && not (any (λ c. not (is_hex c)) hash)

-- The bytes are compared, so that texts compare without regard to case.
unfoldable pub verify_opaque_token : Digest → Text → Text → Option Text → Option Bool
verify_opaque_token digest token expected_hash pepper =
    if is_hash expected_hash
    then elim (hash_opaque_token digest token pepper) [
      | none ↦ none
      | some actual ↦ some (text_eq (from_hex actual) (from_hex expected_hash))
    ]
    else some false
