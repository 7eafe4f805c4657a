-- ===== src/Webhooks/Ipv6.antt =====
-- server/services/webhooks.ts: `ipv6Integer`, the number of an IPv6 address that `isIP` takes.
use opencoi.Base.{
  ℕ, zero, suc, ◌+◌, ◌-◌, ◌*◌, ◌/◌, ◌%◌, Bool, true, false, not, ◌&&◌, ◌||◌, Option, none, some,
  List, [], ◌∷◌, ◌++◌, map, leb, ltb, ◌==◌, if◌then◌else◌, Text, any, length, truthy, is_digit,
  lower_case,
}
use opencoi.Security.{hex_value}

abbrev pub colon : ℕ
colon = 58

-- The first part with more text before it.
abbrev pub prepend : Text → List Text → List Text
prepend t [] = t ∷ []
prepend t (p ∷ ps) = (t ++ p) ∷ ps

-- `split` at a character
unfoldable pub split : ℕ → Text → List Text
split c [] = [] ∷ []
split c (d ∷ s) = let rest = split c s in if d == c then [] ∷ rest else prepend (d ∷ []) rest

-- `split("::")`, from left to right: whether a colon was read that may begin a separator.
unfoldable pub split_double : Bool → Text → List Text
split_double false [] = [] ∷ []
split_double true [] = (colon ∷ []) ∷ []
split_double false (c ∷ s) =
    let rest = split_double (c == colon) s in if c == colon then rest else prepend (c ∷ []) rest
split_double true (c ∷ s) =
    let rest = split_double false s in
    if c == colon then [] ∷ rest else prepend (colon ∷ c ∷ []) rest

-- `split("%")[0]`
abbrev pub first_part : List Text → Text
first_part [] = []
first_part (p ∷ ps) = p

abbrev pub with_colons : List Text → Text
with_colons [] = []
with_colons (p ∷ []) = p
with_colons (p ∷ q ∷ ps) = p ++ (colon ∷ with_colons (q ∷ ps))

-- `Number` of decimal digits, and `BigInt` of hexadecimal ones.
abbrev pub number_in : ℕ → ℕ → Text → ℕ
number_in base n [] = n
number_in base n (c ∷ s) = number_in base (n * base + hex_value c) s

abbrev pub is_number : Text → Bool
is_number t = truthy t && not (any (λ c. not (is_digit c)) t)

abbrev hex_digit : ℕ → ℕ
hex_digit d = if ltb d 10 then 48 + d else 87 + d

-- `toString(16)` of a number below 65536
unfoldable pub hex_text : ℕ → Text
hex_text n =
    if ltb n 16
    then hex_digit n ∷ []
    else if ltb n 256
    then hex_digit (n / 16) ∷ hex_digit (n % 16) ∷ []
    else if ltb n 4096
    then hex_digit (n / 256) ∷ hex_digit (n / 16 % 16) ∷ hex_digit (n % 16) ∷ []
    else hex_digit (n / 4096)
      ∷ hex_digit (n / 256 % 16)
      ∷ hex_digit (n / 16 % 16)
      ∷ hex_digit (n % 16)
      ∷ []

-- Two octets as a group. `isIP` takes octets below 256 only, where `|` of the shifted one is a sum.
abbrev octets_text : Text → Text → Text
octets_text a b = hex_text (number_in 10 0 a * 256 + number_in 10 0 b)

-- A last part `\d+\.\d+\.\d+\.\d+` as two groups, any other as it is.
unfoldable pub tail_groups : Text → List Text → List Text
tail_groups p (a ∷ b ∷ c ∷ d ∷ []) =
    if is_number a && is_number b && is_number c && is_number d
    then octets_text a b ∷ octets_text c d ∷ []
    else p ∷ []
tail_groups p parts = p ∷ []

-- The parts between colons, an IPv4 address at the end as two groups.
unfoldable pub with_tail_groups : List Text → List Text
with_tail_groups [] = []
with_tail_groups (p ∷ []) = tail_groups p (split 46 p)
with_tail_groups (p ∷ q ∷ ps) = p ∷ with_tail_groups (q ∷ ps)

-- `/^[0-9a-f]{1,4}$/`
unfoldable pub is_group : Text → Bool
is_group g =
    leb 1 (length g)
    && leb (length g) 4
    && not (any (λ c. not (is_digit c || leb 97 c && leb c 102)) g)

-- The `reduce`: a group is below 65536, so `|` of the shifted result is a sum.
abbrev pub join_groups : ℕ → List Text → ℕ
join_groups n [] = n
join_groups n (g ∷ gs) = join_groups (n * 65536 + number_in 16 0 g) gs

unfoldable pub integer_of_groups : List Text → Option ℕ
integer_of_groups gs =
    if not (length gs == 8) || any (λ g. not (is_group g)) gs then none else some (join_groups 0 gs)

-- `half ? half.split(":") : []`
abbrev pub groups_of_half : Text → List Text
groups_of_half [] = []
groups_of_half (c ∷ s) = split colon (c ∷ s)

abbrev pub zeros : ℕ → List Text
zeros zero = []
zeros (suc n) = (48 ∷ []) ∷ zeros n

unfoldable pub integer_of_halves : List Text → Option ℕ
integer_of_halves (half ∷ []) =
    let head = groups_of_half half in if length head == 8 then integer_of_groups head else none
integer_of_halves (half ∷ last ∷ []) =
    let head = groups_of_half half in
    let tail = groups_of_half last in
    if ltb (length head + length tail) 8
    then integer_of_groups (head ++ (zeros (8 - length head - length tail) ++ tail))
    else none
integer_of_halves halves = none

-- `ipv6Integer`: `none` is the `TypeError`. Of the letters only A to F matter in lower case.
unfoldable pub ipv6_integer : Text → Option ℕ
ipv6_integer address =
    let value = map lower_case (first_part (split 37 address)) in
    integer_of_halves (split_double false (with_colons (with_tail_groups (split colon value))))
