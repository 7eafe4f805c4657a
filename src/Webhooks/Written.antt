-- ===== src/Webhooks/Written.antt =====
-- server/services/webhooks.ts: the texts of IPv6 addresses against the numbers that are compared.
use mathlib.Core.List.{append-nil}
use native.Mathlib.Nat.{pow-suc}
use opencoi.Base.{
  ℕ, ◌+◌, ◌*◌, ◌-◌, ◌^◌, ◌<◌, ◌≡◌, ◌∙◌, refl, ap, subst, sym, true, false, List, [], ◌∷◌, ◌++◌,
  some, ◌||◌, ◌&&◌, not, leb, ltb, arith, Text, any, length, is_digit, suc, truthy, All, All-append,
  All-append-left, All-append-right, All-imp, All-of_any, length-append, zero,
}
use opencoi.Webhooks.Ipv6.{
  colon, split, split_double, with_colons, number_in, is_group, join_groups, integer_of_groups,
  groups_of_half, zeros, integer_of_halves, ipv6_integer,
}
use opencoi.Webhooks.Halves.{
  IsHex, IsPlain, IsWord, word-Without, with_colons-starts, split-with_colons, ipv6_integer-halves,
  split_double-with_colons,
}

-- The number of groups of 16 bits, the first the highest.
abbrev pub number : List Text → ℕ
number [] = 0
number (g ∷ gs) = number_in 16 0 g * 65536 ^ length gs + number gs

-- The text of eight groups, all of them, or with a run of zeros left out at `::`.
pub data WrittenAs : Text → List Text → Type 0 where
  full : (gs : List Text) → length gs ≡ 8 → WrittenAs (with_colons gs) gs
  compressed :
      (head tail : List Text)
      → length head + length tail < 8
      → WrittenAs
          (with_colons head ++ (colon ∷ colon ∷ with_colons tail))
          (head ++ (zeros (8 - length head - length tail) ++ tail))

abbrev pub IsGroup : Text → Type 0
IsGroup g = is_group g ≡ true

join_groups-number : (n : ℕ) (gs : List Text) → join_groups n gs ≡ n * 65536 ^ length gs + number gs
join_groups-number n [] = omega arith
join_groups-number n (g ∷ gs) =
    join_groups-number (n * 65536 + number_in 16 0 g) gs
    ∙ rw (pow-suc 65536 (length gs)) (shifted n (number_in 16 0 g) (65536 ^ length gs) (number gs))
  where
    shifted : (n a p x : ℕ) → (n * 65536 + a) * p + x ≡ n * (p * 65536) + (a * p + x)
    shifted n a p x = omega arith

group-IsWord : (g : Text) → IsGroup g → IsWord g
unfolding is_group
group-IsWord g h =
    (All-imp _ IsHex is_hex g (All-of_any _ g (ground arith)), is_truthy g (ground arith))
  where
    is_hex : (c : ℕ) → not (is_digit c || leb 97 c && leb c 102) ≡ false → IsHex c
    is_hex c q = ground arith

    is_truthy : (g : Text) → leb 1 (length g) ≡ true → truthy g ≡ true
    is_truthy [] q = ground arith
    is_truthy (c ∷ g) q = refl

word-IsPlain : (g : Text) → IsWord g → All IsPlain g
word-IsPlain g w = All-imp IsHex IsPlain (λ c h. ground arith) g w.0

with_colons-IsPlain : (gs : List Text) → All IsWord gs → All IsPlain (with_colons gs)
with_colons-IsPlain [] w = tt
with_colons-IsPlain (g ∷ []) w = word-IsPlain g w.0
with_colons-IsPlain (g ∷ k ∷ gs) w =
    All-append IsPlain g (colon ∷ with_colons (k ∷ gs)) (word-IsPlain g w.0)
      (refl, with_colons-IsPlain (k ∷ gs) w.1)

-- The groups of a half are the ones that it was written with.
groups_of_half-with_colons : (gs : List Text) → All IsWord gs → groups_of_half (with_colons gs) ≡ gs
groups_of_half-with_colons [] w = refl
groups_of_half-with_colons (g ∷ gs) w =
    let (c, t, e, n) = with_colons-starts g gs w.0 in
    subst (λ u. groups_of_half u ≡ split colon u) (sym e) refl
    ∙ split-with_colons g gs (All-imp IsWord _ word-Without (g ∷ gs) w)

split_double-half :
    (gs : List Text) → All IsWord gs → split_double false (with_colons gs) ≡ with_colons gs ∷ []
unfolding split_double
split_double-half gs w =
    subst (λ u. split_double false u ≡ u ∷ []) (append-nil (with_colons gs))
      (split_double-with_colons gs [] [] [] w refl)

integer_of_groups-number :
    (gs : List Text) → length gs ≡ 8 → All IsGroup gs → integer_of_groups gs ≡ some (number gs)
unfolding integer_of_groups any
integer_of_groups-number gs l h =
    rw l (rw (none_fails gs h) (ap some (join_groups-number 0 gs ∙ omega arith)))
  where
    none_fails : (gs : List Text) → All IsGroup gs → any (λ g. not (is_group g)) gs ≡ false
    none_fails [] h = refl
    none_fails (g ∷ gs) h = ground (arith, none_fails gs h.1, h.0)

length-zeros : (n : ℕ) → length (zeros n) ≡ n
length-zeros zero = refl
length-zeros (suc n) = ap suc (length-zeros n)

length-filled :
    (h t : List Text)
    → length h + length t < 8
    → length (h ++ (zeros (8 - length h - length t) ++ t)) ≡ 8
length-filled h t b =
    length-append h (zeros (8 - length h - length t) ++ t)
    ∙ ap (λ n. length h + n)
        (length-append (zeros (8 - length h - length t)) t
          ∙ ap (λ n. n + length t) (length-zeros (8 - length h - length t)))
    ∙ omega arith

split_double-halves :
    (h t : List Text)
    → All IsWord h
    → All IsWord t
    → split_double false (with_colons h ++ (colon ∷ colon ∷ with_colons t))
      ≡ with_colons h ∷ with_colons t ∷ []
unfolding split_double
split_double-halves h t wh wt =
    split_double-with_colons h (colon ∷ colon ∷ with_colons t) [] (with_colons t ∷ []) wh
      (ap (λ l. [] ∷ l) (split_double-half t wt))
    ∙ ap (λ u. u ∷ with_colons t ∷ []) (append-nil (with_colons h))

-- The text of an address by its eight groups of hexadecimal digits in lower case, or with a run of
-- zeros left out at `::`, is read as the number of 128 bits that the groups make.
pub ipv6_integer-number :
    (s : Text) (gs : List Text)
    → WrittenAs s gs
    → All IsGroup gs
    → ipv6_integer s ≡ some (number gs)
unfolding integer_of_halves
ipv6_integer-number s gs (full ks l) h =
    let w = All-imp IsGroup IsWord group-IsWord ks h in
    ipv6_integer-halves (with_colons ks) (with_colons-IsPlain ks w)
    ∙ rw (split_double-half ks w)
        (rw (groups_of_half-with_colons ks w) (rw l (integer_of_groups-number ks l h)))
ipv6_integer-number s gs (compressed hd tl b) h =
    let z = zeros (8 - length hd - length tl) in
    let wh = All-imp IsGroup IsWord group-IsWord hd (All-append-left IsGroup hd (z ++ tl) h) in
    let wt =
      All-imp IsGroup IsWord group-IsWord tl
        (All-append-right IsGroup z tl (All-append-right IsGroup hd (z ++ tl) h)) in
    ipv6_integer-halves _ (
      All-append IsPlain (with_colons hd) (colon ∷ colon ∷ with_colons tl)
        (with_colons-IsPlain hd wh) (refl, (refl, with_colons-IsPlain tl wt)))
    ∙ rw (split_double-halves hd tl wh wt) (
        rw (groups_of_half-with_colons hd wh) (
          rw (groups_of_half-with_colons tl wt) (
            rw (is_short (length hd + length tl) b)
              (integer_of_groups-number (hd ++ (z ++ tl)) (length-filled hd tl b) h))))
  where
    is_short : (n : ℕ) → n < 8 → ltb n 8 ≡ true
    is_short n b = ground arith
