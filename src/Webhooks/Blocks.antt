-- ===== src/Webhooks/Blocks.antt =====
-- server/services/webhooks.ts: the refused addresses as blocks.
use opencoi.Base.{
  ℕ, ◌+◌, ◌-◌, ◌*◌, ◌^◌, ◌<◌, ◌≡◌, Bool, true, false, ◌&&◌, ◌||◌, List, [], ◌∷◌, leb, ◌==◌, arith,
  any,
}
use opencoi.Webhooks.{is_disallowed_ipv4}

abbrev pub number_of : ℕ → ℕ → ℕ → ℕ → ℕ
number_of a b c d = a * 16777216 + b * 65536 + c * 256 + d

-- The block of the addresses from the first to the last.
abbrev within : ℕ → ℕ → ℕ → Bool
within low high n = leb low n && leb n high

-- A block in the notation of CIDR: its first address and the bits that its addresses share.
pub record Block : Type 0 where
  pub first : ℕ
  pub bits : ℕ

abbrev pub cidr : ℕ → ℕ → ℕ → ℕ → Block
cidr a b c bits = record { first = number_of a b c 0; bits = bits }

unfoldable pub in_block : ℕ → Block → Bool
in_block n block = within block.first (block.first + 2 ^ (32 - block.bits) - 1) n

-- 0/8, 10/8, 127/8, 100.64/10, 169.254/16, 172.16/12, 192.0/16, 192.168/16, 198.18/15,
-- 198.51.100/24, 203.0.113/24 and 224/3
abbrev pub refused_ipv4_blocks : List Block
refused_ipv4_blocks =
    cidr 0 0 0 8
    ∷ cidr 10 0 0 8
    ∷ cidr 127 0 0 8
    ∷ cidr 100 64 0 10
    ∷ cidr 169 254 0 16
    ∷ cidr 172 16 0 12
    ∷ cidr 192 0 0 16
    ∷ cidr 192 168 0 16
    ∷ cidr 198 18 0 15
    ∷ cidr 198 51 100 24
    ∷ cidr 203 0 113 24
    ∷ cidr 224 0 0 3
    ∷ []

module _ (a b c d : ℕ) (ha : a < 256) (hb : b < 256) (hc : c < 256) (hd : d < 256) where
  octet_block : (k : ℕ) → (a == k) ≡ in_block (number_of a b c d) (cidr k 0 0 8)
  unfolding in_block
  octet_block k = ground arith

  two_octets_block :
      (k l : ℕ) → l < 256 → (a == k && b == l) ≡ in_block (number_of a b c d) (cidr k l 0 16)
  unfolding in_block
  two_octets_block k l h = ground arith

  three_octets_block :
      (k l m : ℕ)
      → l < 256
      → m < 256
      → (a == k && b == l && c == m) ≡ in_block (number_of a b c d) (cidr k l m 24)
  unfolding in_block
  three_octets_block k l m hl hm = ground arith

  shared_block :
      (a == 100 && leb 64 b && leb b 127) ≡ in_block (number_of a b c d) (cidr 100 64 0 10)
  unfolding in_block
  shared_block = ground arith

  private_block :
      (a == 172 && leb 16 b && leb b 31) ≡ in_block (number_of a b c d) (cidr 172 16 0 12)
  unfolding in_block
  private_block = ground arith

  benchmark_block :
      (a == 198 && (b == 18 || b == 19)) ≡ in_block (number_of a b c d) (cidr 198 18 0 15)
  unfolding in_block
  benchmark_block = ground arith

  top_block : leb 224 a ≡ in_block (number_of a b c d) (cidr 224 0 0 3)
  unfolding in_block
  top_block = ground arith

-- A chain of tests, one of which the seventh holds for, as a search of a list.
chain_of_tests :
    (t1 t2 t3 t4 t5 t6 t7 t8 t9 t10 t11 t12 s b1 b2 b3 b4 b5 b6 b7 b8 b9 b10 b11 b12 : Bool)
    → t1 ≡ b1
    → t2 ≡ b2
    → t3 ≡ b3
    → t4 ≡ b4
    → t5 ≡ b5
    → t6 ≡ b6
    → t7 ≡ b7
    → t8 ≡ b8
    → t9 ≡ b9
    → t10 ≡ b10
    → t11 ≡ b11
    → t12 ≡ b12
    → (s ≡ true → t7 ≡ true)
    → (t1 || t2 || t3 || t4 || t5 || t6 || t7 || t8 || s || t9 || t10 || t11 || t12) ≡ (
        b1
        || (b2
            || (b3
                || (b4
                    || (b5 || (b6 || (b7 || (b8 || (b9 || (b10 || (b11 || (b12 || false))))))))))))
chain_of_tests t1 t2 t3 t4 t5 t6 t7 t8 t9 t10 t11 t12 s b1 b2 b3 b4 b5 b6 b7 b8 b9 b10 b11 b12 h1 h2
      h3 h4 h5 h6 h7 h8 h9 h10 h11 h12 hs =
    ground arith

-- An address of four octets is refused exactly when its number of 32 bits stands in one of twelve
-- blocks: the private, shared, loopback, link-local, protocol, benchmark and documentation ranges, multicast and
-- all above it.
pub is_disallowed_ipv4-in_block :
    (a b c d : ℕ)
    → a < 256
    → b < 256
    → c < 256
    → d < 256
    → is_disallowed_ipv4 a b c ≡ any (in_block (number_of a b c d)) refused_ipv4_blocks
unfolding is_disallowed_ipv4 any
is_disallowed_ipv4-in_block a b c d ha hb hc hd =
    chain_of_tests _ _ _ _ _ _ _ _ _ _ _ _ (a == 192 && b == 0 && c == 2) _ _ _ _ _ _ _ _ _ _ _ _
      (octet_block a b c d ha hb hc hd 0) (octet_block a b c d ha hb hc hd 10)
      (octet_block a b c d ha hb hc hd 127) (shared_block a b c d ha hb hc hd)
      (two_octets_block a b c d ha hb hc hd 169 254 (omega arith))
      (private_block a b c d ha hb hc hd) (two_octets_block a b c d ha hb hc hd 192 0 (omega arith))
      (two_octets_block a b c d ha hb hc hd 192 168 (omega arith))
      (benchmark_block a b c d ha hb hc hd)
      (three_octets_block a b c d ha hb hc hd 198 51 100 (omega arith) (omega arith))
      (three_octets_block a b c d ha hb hc hd 203 0 113 (omega arith) (omega arith))
      (top_block a b c d ha hb hc hd) (λ q. ground arith)
