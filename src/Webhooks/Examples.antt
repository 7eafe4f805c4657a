-- ===== src/Webhooks/Examples.antt =====
-- A public target, and one that resolves to a private address as well.
use native.Mathlib.Omega.{arith}
use opencoi.Base.{
  ◌≡◌, ◌≢◌, refl, true, false, none, some, List, [], ◌∷◌, ◌++◌, All, codes, any, Text, is_digit,
}
use opencoi.Webhooks.{
  groups, ipv4, no_address, Url, https, LookupAddress, PublicWebhookTarget, is_disallowed_ipv4,
  is_public_webhook_address, is_permitted, addresses_of, is_refused, select_target,
  resolve_public_webhook_target,
}
use opencoi.Webhooks.Blocks.{number_of, in_block, refused_ipv4_blocks, is_disallowed_ipv4-in_block}
use opencoi.Webhooks.Ipv6.{
  ipv6_integer, split, split_double, with_tail_groups, tail_groups, hex_text, integer_of_halves,
  integer_of_groups, is_group, zeros,
}
use opencoi.Webhooks.Written.{number, compressed, ipv6_integer-number}
use opencoi.Webhooks.Target.{resolve_public_webhook_target-public}

abbrev url : Url
url = record {
  protocol = https;
  username = [];
  password = [];
  hash = [];
  hostname = codes "hooks.example.com";
}

abbrev public_answer : LookupAddress
public_answer = record { address = ipv4 8 8 8 8; family = 4 }

abbrev private_answer : LookupAddress
private_answer = record { address = ipv4 10 0 0 1; family = 4 }

abbrev target : PublicWebhookTarget
target = record { url = url; address = ipv4 8 8 8 8; family = 4 }

resolves : resolve_public_webhook_target false url no_address (public_answer ∷ []) ≡ some target
unfolding resolve_public_webhook_target select_target addresses_of is_refused
    is_public_webhook_address is_disallowed_ipv4 any
resolves = refl

refuses_rebinding :
    resolve_public_webhook_target false url no_address (public_answer ∷ private_answer ∷ []) ≡ none
unfolding resolve_public_webhook_target select_target addresses_of is_refused
    is_public_webhook_address is_disallowed_ipv4 any
refuses_rebinding = refl

resolve_public_webhook_target-public_example :
    (target.url ≡ url)
    × (is_permitted false https ≡ true)
    × ((url.username ≡ []) × (url.password ≡ []) × (url.hash ≡ []) × (url.hostname ≢ []))
    × (is_public_webhook_address (ipv4 8 8 8 8) ≡ true)
    × All
        (λ (l : LookupAddress). is_public_webhook_address l.address ≡ true)
        (addresses_of no_address (public_answer ∷ []))
resolve_public_webhook_target-public_example =
    resolve_public_webhook_target-public false url no_address (public_answer ∷ []) target resolves

is_disallowed_ipv4-in_block_example :
    is_disallowed_ipv4 172 31 0 ≡ any (in_block (number_of 172 31 0 7)) refused_ipv4_blocks
is_disallowed_ipv4-in_block_example =
    is_disallowed_ipv4-in_block 172 31 0 7 (omega arith) (omega arith) (omega arith) (omega arith)

-- The prefixes of `isDisallowedIpv6`, as the numbers that stand for them.
prefixes_test :
    (ipv6_integer (codes "2000::") ≡ some (groups 0x2000 0 0))
    × (ipv6_integer (codes "2001::") ≡ some (groups 0x2001 0 0))
    × (ipv6_integer (codes "2001:db8::") ≡ some (groups 0x2001 0xdb8 0))
    × (ipv6_integer (codes "2002::") ≡ some (groups 0x2002 0 0))
    × (ipv6_integer (codes "2620:4f:8000::") ≡ some (groups 0x2620 0x4f 0x8000))
    × (ipv6_integer (codes "3fff::") ≡ some (groups 0x3fff 0 0))
unfolding ipv6_integer split split_double with_tail_groups tail_groups integer_of_halves
    integer_of_groups is_group is_digit any
prefixes_test = (refl, refl, refl, refl, refl, refl)

-- Capitals, a zone, an IPv4 address at the end, and texts that are refused.
addresses_test :
    (ipv6_integer (codes "2001:DB8::%eth0") ≡ some (groups 0x2001 0xdb8 0))
    × (ipv6_integer (codes "::ffff:10.0.255.1") ≡ some 0xffff0a00ff01)
    × (ipv6_integer (codes "1:2:3:4:5:6:7::8") ≡ none)
    × (ipv6_integer (codes "1::2::3") ≡ none)
    × (ipv6_integer (codes ":::") ≡ none)
unfolding ipv6_integer split split_double with_tail_groups tail_groups hex_text integer_of_halves
    integer_of_groups is_group is_digit any
addresses_test = (refl, refl, refl, refl, refl)

abbrev documentation : List Text
documentation = codes "2001" ∷ codes "db8" ∷ []

ipv6_integer-number_example :
    ipv6_integer (codes "2001:db8::1")
    ≡ some (number (documentation ++ (zeros 5 ++ (codes "1" ∷ []))))
unfolding is_group is_digit any
ipv6_integer-number_example =
    ipv6_integer-number (codes "2001:db8::1") (documentation ++ (zeros 5 ++ (codes "1" ∷ [])))
      (compressed documentation (codes "1" ∷ []) (omega arith))
      (refl, (refl, (refl, (refl, (refl, (refl, (refl, (refl, tt))))))))
