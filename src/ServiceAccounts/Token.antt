-- ===== src/ServiceAccounts/Token.antt =====
-- server/services/serviceAccounts.ts: `secretIdFromToken`, a pattern as its classes of characters.
use opencoi.Base.{
  ℕ, zero, suc, Bool, ◌&&◌, ◌||◌, Option, none, some, List, [], ◌∷◌, ◌++◌, leb, ◌==◌, if◌then◌else◌,
  ◌>>=◌, Text, codes, map, is_digit, length, lower_case,
}
use opencoi.Security.{is_hex}

-- A literal character with the flag i.
abbrev pub same_letter : ℕ → ℕ → Bool
same_letter p c = lower_case c == lower_case p

-- `[89ab]` with the flag i
abbrev pub is_variant : ℕ → Bool
is_variant c = c == 56 || c == 57 || lower_case c == 97 || lower_case c == 98

-- `[A-Za-z0-9_-]`
unfoldable pub is_url_safe : ℕ → Bool
unfolding is_digit
is_url_safe c = leb 65 c && leb c 90 || leb 97 c && leb c 122 || is_digit c || c == 95 || c == 45

abbrev pub repeated {ℓ} : {A : Type ℓ} → ℕ → A → List A
repeated zero a = []
repeated (suc n) a = a ∷ repeated n a

-- `[0-9a-f]{8}-[0-9a-f]{4}-4[0-9a-f]{3}-[89ab][0-9a-f]{3}-[0-9a-f]{12}`
abbrev pub uuid_classes : List (ℕ → Bool)
uuid_classes =
    repeated 8 is_hex
    ++ (same_letter 45 ∷ repeated 4 is_hex)
    ++ (same_letter 45 ∷ same_letter 52 ∷ repeated 3 is_hex)
    ++ (same_letter 45 ∷ is_variant ∷ repeated 3 is_hex)
    ++ (same_letter 45 ∷ repeated 12 is_hex)

-- The characters that classes match at the start of a text, and the rest of it.
unfoldable pub match_classes : List (ℕ → Bool) → Text → Option (Text × Text)
match_classes [] s = some ([], s)
match_classes (p ∷ ps) [] = none
match_classes (p ∷ ps) (c ∷ s) =
    let rest = match_classes ps s in if p c then (rest >>= λ m. some (c ∷ m.0, m.1)) else none

abbrev pub secret_prefix : Text
secret_prefix = codes "ocoi_sk_"

-- `^ocoi_sk_(...)\.[A-Za-z0-9_-]{43}$` with the flag i
unfoldable pub secret_id_from_token : Text → Option Text
secret_id_from_token token = match_classes (map same_letter secret_prefix) token >>= λ prefix.
    match_classes uuid_classes prefix.1 >>= λ uuid.
    match_classes (same_letter 46 ∷ repeated 43 is_url_safe) uuid.1 >>= λ end.
    if length end.1 == 0 then some uuid.0 else none
