-- ===== src/Webhooks/Halves.antt =====
-- server/services/webhooks.ts: how the text of an IPv6 address splits at its colons.
use mathlib.Core.List.{append_assoc}
use opencoi.Base.{
  ℕ, ◌≡◌, ◌∙◌, refl, ap, subst, sym, Bool, true, false, inl, inr, Bool-cases, List, [], ◌∷◌, ◌++◌,
  map, ◌==◌, ◌||◌, ◌&&◌, truthy, leb, arith, Text, is_digit, lower_case, All, All-imp,
}
use opencoi.Webhooks.Ipv6.{
  colon, prepend, split, split_double, with_colons, tail_groups, with_tail_groups,
  integer_of_halves, ipv6_integer,
}

abbrev pub IsHex : ℕ → Type 0
IsHex c = (is_digit c || leb 97 c && leb c 102) ≡ true

abbrev pub IsPlain : ℕ → Type 0
IsPlain c = ((c == colon) || (is_digit c || leb 97 c && leb c 102)) ≡ true

abbrev Without : ℕ → Text → Type 0
Without c t = All (λ d. (d == c) ≡ false) t

split-Without : (c : ℕ) (t : Text) → Without c t → split c t ≡ t ∷ []
unfolding split
split-Without c [] h = refl
split-Without c (d ∷ t) h = rw h.0 (rw (split-Without c t h.1) refl)

split-append : (c : ℕ) (t s : Text) → Without c t → split c (t ++ (c ∷ s)) ≡ t ∷ split c s
unfolding split
split-append c [] s h = rw (same c) refl
  where
    same : (c : ℕ) → (c == c) ≡ true
    same c = ground arith
split-append c (d ∷ t) s h = rw h.0 (rw (split-append c t s h.1) refl)

split_cons : (c : ℕ) (t : Text) → (p : Text) × (ps : List Text) × (split c t ≡ p ∷ ps)
unfolding split
split_cons c [] = ([], [], refl)
split_cons c (d ∷ t) =
    let (p, ps, e) = split_cons c t in
    elim (Bool-cases (d == c)) [
      | inl q ↦ ([], split c t, rw q refl)
      | inr q ↦ (d ∷ p, ps, rw q (rw e refl))
    ]

split-All : (P : ℕ → Type 0) (c : ℕ) (t : Text) → All P t → All (All P) (split c t)
unfolding split
split-All P c [] h = (tt, tt)
split-All P c (d ∷ t) h =
    let (p, ps, e) = split_cons c t in
    let rest : All (All P) (p ∷ ps) = subst (All (All P)) e (split-All P c t h.1) in
    elim (Bool-cases (d == c)) [
      | inl q ↦ rw q (rw e (tt, rest))
      | inr q ↦ rw q (rw e ((h.0, rest.0), rest.1))
    ]

-- The parts between colons joined by colons.
pub with_colons-split : (t : Text) → with_colons (split colon t) ≡ t
unfolding split
with_colons-split [] = refl
with_colons-split (d ∷ t) =
    let (p, ps, e) = split_cons colon t in
    let rest : with_colons (p ∷ ps) ≡ t = subst (λ l. with_colons l ≡ t) e (with_colons-split t) in
    elim (Bool-cases (d == colon)) [
      | inl q ↦ rw q (rw e (rw rest (ap (λ c. c ∷ t) (sym (is_colon q)))))
      | inr q ↦ rw q (rw e (with_colons-first d p ps ∙ rw rest refl))
    ]
  where
    is_colon : {d : ℕ} → (d == colon) ≡ true → d ≡ colon
    is_colon q = ground arith

    with_colons-first :
        (d : ℕ) (p : Text) (ps : List Text) → with_colons ((d ∷ p) ∷ ps) ≡ d ∷ with_colons (p ∷ ps)
    with_colons-first d p [] = refl
    with_colons-first d p (q ∷ ps) = refl

-- Parts without a dot stay as they are.
with_tail_groups-same : (ps : List Text) → All (Without 46) ps → with_tail_groups ps ≡ ps
unfolding with_tail_groups
with_tail_groups-same [] h = refl
with_tail_groups-same (p ∷ []) h = rw (split-Without 46 p h.0) (unfold tail_groups in refl)
with_tail_groups-same (p ∷ q ∷ ps) h = ap (λ l. p ∷ l) (with_tail_groups-same (q ∷ ps) h.1)

pub split-with_colons :
    (g : Text) (gs : List Text)
    → All (Without colon) (g ∷ gs)
    → split colon (with_colons (g ∷ gs)) ≡ g ∷ gs
split-with_colons g [] h = split-Without colon g h.0
split-with_colons g (k ∷ gs) h =
    split-append colon g (with_colons (k ∷ gs)) h.0 ∙ ap (λ l. g ∷ l) (split-with_colons k gs h.1)

lower_case-same : (c : ℕ) → IsPlain c → lower_case c ≡ c
unfolding is_digit
lower_case-same c h = ground arith

map-lower_case : (t : Text) → All IsPlain t → map lower_case t ≡ t
map-lower_case [] h = refl
map-lower_case (c ∷ t) h = rw (lower_case-same c h.0) (rw (map-lower_case t h.1) refl)

not_percent : (c : ℕ) → IsPlain c → (c == 37) ≡ false
unfolding is_digit
not_percent c h = ground arith

not_dot : (c : ℕ) → IsPlain c → (c == 46) ≡ false
unfolding is_digit
not_dot c h = ground arith

-- A text of hexadecimal digits and colons is read from its halves.
pub ipv6_integer-halves :
    (s : Text) → All IsPlain s → ipv6_integer s ≡ integer_of_halves (split_double false s)
unfolding ipv6_integer
ipv6_integer-halves s h = rw (split-Without 37 s (All-imp _ _ not_percent s h)) (
    rw (map-lower_case s h) (
      rw
        (with_tail_groups-same (split colon s)
          (split-All (λ d. (d == 46) ≡ false) colon s (All-imp _ _ not_dot s h)))
        (rw (with_colons-split s) refl)))

split_double_cons :
    (b : Bool) (t : Text) → (p : Text) × (ps : List Text) × (split_double b t ≡ p ∷ ps)
unfolding split_double
split_double_cons false [] = ([], [], refl)
split_double_cons true [] = (colon ∷ [], [], refl)
split_double_cons false (c ∷ t) = elim (Bool-cases (c == colon)) [
  | inl q ↦ let (p, ps, e) = split_double_cons true t in (p, ps, rw q e)
  | inr q ↦ let (p, ps, e) = split_double_cons false t in (c ∷ p, ps, rw q (rw e refl))
]
split_double_cons true (c ∷ t) =
    let (p, ps, e) = split_double_cons false t in
    elim (Bool-cases (c == colon)) [
      | inl q ↦ ([], split_double false t, rw q refl)
      | inr q ↦ (colon ∷ c ∷ p, ps, rw q (rw e refl))
    ]

split_double-text :
    (t s p : Text) (ps : List Text)
    → Without colon t
    → split_double false s ≡ p ∷ ps
    → split_double false (t ++ s) ≡ (t ++ p) ∷ ps
unfolding split_double
split_double-text [] s p ps w h = h
split_double-text (c ∷ t) s p ps w h = rw w.0 (rw (split_double-text t s p ps w.1 h) refl)

-- A colon before another character is no separator.
split_double-colon :
    (c : ℕ) (s p : Text) (ps : List Text)
    → (c == colon) ≡ false
    → split_double false (c ∷ s) ≡ p ∷ ps
    → split_double false (colon ∷ c ∷ s) ≡ (colon ∷ p) ∷ ps
unfolding split_double
split_double-colon c s p ps w h =
    let (q, qs, e) = split_double_cons false s in
    let same : ((c ∷ q) ∷ qs) ≡ p ∷ ps = sym (rw w (rw e refl)) ∙ h in
    rw w (rw e (ap (prepend (colon ∷ [])) same))

abbrev pub IsWord : Text → Type 0
IsWord g = All IsHex g × (truthy g ≡ true)

not_colon : (c : ℕ) → IsHex c → (c == colon) ≡ false
unfolding is_digit
not_colon c h = ground arith

pub word-Without : (g : Text) → IsWord g → Without colon g
word-Without g w = All-imp _ _ not_colon g w.0

-- Groups begin with a digit.
pub with_colons-starts :
    (g : Text) (gs : List Text)
    → IsWord g
    → (c : ℕ) × (s : Text) × (with_colons (g ∷ gs) ≡ c ∷ s) × ((c == colon) ≡ false)
with_colons-starts [] gs w = ground arith
with_colons-starts (c ∷ g) [] w = (c, g, refl, not_colon c w.0.0)
with_colons-starts (c ∷ g) (k ∷ gs) w =
    (c, g ++ (colon ∷ with_colons (k ∷ gs)), refl, not_colon c w.0.0)

pub split_double-with_colons :
    (gs : List Text) (s p : Text) (ps : List Text)
    → All IsWord gs
    → split_double false s ≡ p ∷ ps
    → split_double false (with_colons gs ++ s) ≡ (with_colons gs ++ p) ∷ ps
split_double-with_colons [] s p ps w h = h
split_double-with_colons (g ∷ []) s p ps w h = split_double-text g s p ps (word-Without g w.0) h
split_double-with_colons (g ∷ k ∷ gs) s p ps w h =
    let (c, t, e, n) = with_colons-starts k gs w.1.0 in
    let rest = split_double-with_colons (k ∷ gs) s p ps w.1 h in
    rw (append_assoc g (colon ∷ with_colons (k ∷ gs)) s) (
      rw (append_assoc g (colon ∷ with_colons (k ∷ gs)) p) (
        split_double-text g (colon ∷ (with_colons (k ∷ gs) ++ s))
          (colon ∷ (with_colons (k ∷ gs) ++ p)) ps (word-Without g w.0)
          (subst
            (λ u.
              split_double false (u ++ s) ≡ (with_colons (k ∷ gs) ++ p) ∷ ps
              → split_double false (colon ∷ (u ++ s)) ≡ (colon ∷ (with_colons (k ∷ gs) ++ p)) ∷ ps)
            (sym e) (split_double-colon c (t ++ s) (with_colons (k ∷ gs) ++ p) ps n) rest)))
