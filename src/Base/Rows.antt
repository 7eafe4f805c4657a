-- ===== src/Base/Rows.antt =====
-- The rows of a table as a list, and what an SQL `UPDATE` makes of them.
use mathlib.Core.Path.{◌≡◌, refl, sym, ap, ◌∙◌}
use mathlib.Core.Logic.{inl, inr}
use Prim.Native.Nat.{ℕ, suc}
use mathlib.Core.Bool.{Bool, true, false, ◌&&◌}
use native.Mathlib.Omega.{arith}
use mathlib.Core.List.{List, [], ◌∷◌, Memᴰ}
use opencoi.Base.Tests.{if◌then◌else◌, Bool-cases}
use opencoi.Base.Lists.{All, All-imp, All-Memᴰ, length, filter}

module _ {ℓ} {A : Type ℓ} where
  -- `UPDATE ... WHERE`: the rows after it, and the rows that it changed, as they are after it.
  unfoldable pub update_where : (A → Bool) → (A → A) → List A → List A × List A
  update_where test change [] = ([], [])
  update_where test change (r ∷ rs) =
      let rest = update_where test change rs in
      if test r then (change r ∷ rest.0, change r ∷ rest.1) else (r ∷ rest.0, rest.1)

  -- What all rows have after it, where those that pass the test and the others have it.
  pub All-update_where_split {κ μ} :
      (P : A → Type κ) (Q : A → Type μ) (test : A → Bool) (change : A → A)
      → ((r : A) → test r ≡ true → P r → Q (change r))
      → ((r : A) → test r ≡ false → P r → Q r)
      → (rows : List A) → All P rows
      → All Q (update_where test change rows).0
  unfolding update_where
  All-update_where_split P Q test change k l [] h = tt
  All-update_where_split P Q test change k l (r ∷ rows) h =
      let rest = All-update_where_split P Q test change k l rows h.1 in
      elim (Bool-cases (test r)) [ inl e ↦ rw e (k r e h.0, rest) | inr e ↦ rw e (l r e h.0, rest) ]

  -- A change of the rows that pass a test keeps a property of all rows, where it keeps it of those.
  pub All-update_where {κ} :
      (P : A → Type κ) (test : A → Bool) (change : A → A)
      → ((r : A) → test r ≡ true → P r → P (change r))
      → (rows : List A) → All P rows
      → All P (update_where test change rows).0
  All-update_where P test change k = All-update_where_split P P test change k (λ r e h. h)

  pub update_where-none :
      (test : A → Bool) (change : A → A) (rows : List A)
      → All (λ r. test r ≡ false) rows
      → update_where test change rows ≡ (rows, [])
  unfolding update_where
  update_where-none test change [] h = refl
  update_where-none test change (r ∷ rs) h = rw (h.0, update_where-none test change rs h.1)

  abbrev pub AllFalse : (A → Bool) → List A → Type 0
  AllFalse test = All (λ r. test r ≡ false)

  -- At most one row passes a test.
  abbrev pub AtMostOne : (A → Bool) → List A → Type 0
  AtMostOne test [] = Unit
  AtMostOne test (r ∷ rs) = (test r ≡ true → AllFalse test rs) × AtMostOne test rs

-- The keys of a table: no row has the same key as a later one.
module _ {ℓ} {A : Type ℓ} (same : A → A → Bool) where
  abbrev pub Apart : List A → Type 0
  Apart [] = Unit
  Apart (r ∷ rs) = AllFalse (same r) rs × Apart rs

  -- A change of a row that keeps its keys.
  abbrev pub KeepsKeys : (A → A) → Type ℓ
  KeepsKeys change = (r s : A) → (same (change r) s ≡ same r s) × (same s (change r) ≡ same s r)

  pub update_where-Apart :
      (test : A → Bool) (change : A → A) (rows : List A)
      → KeepsKeys change
      → Apart rows
      → Apart (update_where test change rows).0
  unfolding update_where
  update_where-Apart test change [] k h = tt
  update_where-Apart test change (r ∷ rows) k h =
      let rest = update_where-Apart test change rows k h.1 in
      let apart =
        All-update_where (λ s. same r s ≡ false) test change (λ s e q. (k s r).1 ∙ q) rows h.0 in
      elim (Bool-cases (test r)) [
        | inl e ↦ rw e (
          All-imp (λ s. same r s ≡ false) (λ s. same (change r) s ≡ false) (λ s q. (k r s).0 ∙ q) _
              apart,
          rest,
        )
        | inr e ↦ rw e (apart, rest)
      ]

  -- A test that only rows of one key pass is passed by one row at most.
  pub Apart-AtMostOne :
      (test : A → Bool)
      → ((r s : A) → test r ≡ true → same r s ≡ false → test s ≡ false)
      → (rows : List A) → Apart rows
      → AtMostOne test rows
  Apart-AtMostOne test k [] h = tt
  Apart-AtMostOne test k (r ∷ rows) h = (
    λ q. All-imp (λ s. same r s ≡ false) (λ s. test s ≡ false) (λ s e. k r s q e) rows h.0,
    Apart-AtMostOne test k rows h.1,
  )

module _ {ℓ} {A : Type ℓ} where
  -- The only row that passes a test is each that passes it.
  pub AtMostOne-only :
      (test : A → Bool) (rows : List A) (a : A)
      → AtMostOne test rows
      → Memᴰ a rows
      → test a ≡ true
      → All (λ r. test r ≡ true → r ≡ a) rows
  AtMostOne-only test [] a u m e = tt
  AtMostOne-only test (r ∷ rows) a u (Memᴰ.head q) e = (
    λ k. sym q,
    All-imp (λ s. test s ≡ false) (λ s. test s ≡ true → s ≡ a) (λ s f k. ground arith) rows
        (u.0 (ap test (sym q) ∙ e)),
  )
  AtMostOne-only test (r ∷ rows) a u (Memᴰ.tail m) e = (
    λ k. absurd (clash (All-Memᴰ (λ s. test s ≡ false) rows (u.0 k) m)),
    AtMostOne-only test rows a u.1 m e,
  )
    where
      clash : test a ≡ false → ⊥
      clash f = ground arith

  -- A row that does not pass the test is still there.
  pub Memᴰ-update_where :
      (test : A → Bool) (change : A → A) (rows : List A) (a : A)
      → test a ≡ false
      → Memᴰ a rows
      → Memᴰ a (update_where test change rows).0
  unfolding update_where
  Memᴰ-update_where test change [] a e m = m
  Memᴰ-update_where test change (r ∷ rows) a e (Memᴰ.head q) =
      rw (ap test (sym q) ∙ e) (Memᴰ.head q)
  Memᴰ-update_where test change (r ∷ rows) a e (Memᴰ.tail m) =
      let rest = Memᴰ-update_where test change rows a e m in
      elim (Bool-cases (test r)) [ inl k ↦ rw k (Memᴰ.tail rest) | inr k ↦ rw k (Memᴰ.tail rest) ]

  -- A row that passes it is there as it is changed.
  pub Memᴰ-update_where_changed :
      (test : A → Bool) (change : A → A) (rows : List A) (a : A)
      → test a ≡ true
      → Memᴰ a rows
      → Memᴰ (change a) (update_where test change rows).0
  unfolding update_where
  Memᴰ-update_where_changed test change [] a e m = elim m [ ]
  Memᴰ-update_where_changed test change (r ∷ rows) a e (Memᴰ.head q) =
      rw (ap test (sym q) ∙ e) (Memᴰ.head (ap change q))
  Memᴰ-update_where_changed test change (r ∷ rows) a e (Memᴰ.tail m) =
      let rest = Memᴰ-update_where_changed test change rows a e m in
      elim (Bool-cases (test r)) [ inl k ↦ rw k (Memᴰ.tail rest) | inr k ↦ rw k (Memᴰ.tail rest) ]

  -- Where one row at most passes a test, and this one does, the statement changes it alone.
  pub update_where-one :
      (test : A → Bool) (change : A → A) (rows : List A) (a : A)
      → AtMostOne test rows
      → Memᴰ a rows
      → test a ≡ true
      → (update_where test change rows).1 ≡ change a ∷ []
  unfolding update_where
  update_where-one test change [] a u m e = elim m [ ]
  update_where-one test change (r ∷ rows) a u (Memᴰ.head q) e =
      let k = ap test (sym q) ∙ e in
      rw (k, update_where-none test change rows (u.0 k), ap change q) refl
  update_where-one test change (r ∷ rows) a u (Memᴰ.tail m) e =
      let rest = update_where-one test change rows a u.1 m e in
      elim (Bool-cases (test r)) [
        | inl k ↦ absurd (clash (All-Memᴰ (λ s. test s ≡ false) rows (u.0 k) m))
        | inr k ↦ rw k rest
      ]
    where
      clash : test a ≡ false → ⊥
      clash f = ground arith

  -- A test that passes fewer rows.
  pub AtMostOne-imp :
      (fewer test : A → Bool)
      → ((r : A) → fewer r ≡ true → test r ≡ true)
      → (rows : List A) → AtMostOne test rows
      → AtMostOne fewer rows
  AtMostOne-imp fewer test k [] u = tt
  AtMostOne-imp fewer test k (r ∷ rows) u = (
    λ e.
        All-imp (λ s. test s ≡ false) (λ s. fewer s ≡ false) (λ s f. not_fewer s f) rows
          (u.0 (k r e)),
    AtMostOne-imp fewer test k rows u.1,
  )
    where
      not_fewer : (s : A) → test s ≡ false → fewer s ≡ false
      not_fewer s f = elim (Bool-cases (fewer s)) [ inl e ↦ ground (arith, k s e) | inr e ↦ e ]

  -- What an `UPDATE` changed passes its test.
  pub update_where-changed :
      (test : A → Bool) (change : A → A) (rows : List A) {n : ℕ}
      → length (update_where test change rows).1 ≡ suc n
      → (a : A) × Memᴰ a rows × (test a ≡ true)
  unfolding update_where
  update_where-changed test change [] h = ground arith
  update_where-changed test change (r ∷ rows) h = elim (Bool-cases (test r)) [
    | inl e ↦ (r, Memᴰ.head refl, e)
    | inr e ↦
        let (a, m, q) = update_where-changed test change rows (rw e at h) in (a, Memᴰ.tail m, q)
  ]

-- The rows of a key, of which there is one.
module _ {ℓ} {A : Type ℓ} (key : A → Bool) where
  pub filter-none : (rows : List A) → AllFalse key rows → filter key rows ≡ []
  unfolding filter
  filter-none [] h = refl
  filter-none (r ∷ rows) h = rw h.0 (filter-none rows h.1)

  filter_nil : (rows : List A) → filter key rows ≡ [] → AllFalse key rows
  unfolding filter
  filter_nil [] h = tt
  filter_nil (r ∷ rows) h = elim (Bool-cases (key r)) [
    | inl e ↦ ground (arith, h, e)
    | inr e ↦ (e, filter_nil rows (rw e at h))
  ]

  cons_parts : {a b : A} {xs ys : List A} → a ∷ xs ≡ b ∷ ys → (a ≡ b) × (xs ≡ ys)
  cons_parts {a} {xs = xs} e = (ap (first a) e, ap rest e)
    where
      first : A → List A → A
      first x [] = x
      first x (y ∷ ys) = y

      rest : List A → List A
      rest [] = []
      rest (y ∷ ys) = ys

  -- A change of the one row of a key that passes a test is the change of that row alone.
  pub filter-update_where :
      (test : A → Bool) (change : A → A)
      → ((r : A) → key r ≡ true → key (change r) ≡ true)
      → (rows : List A) (d : A) → filter key rows ≡ d ∷ []
      → test d ≡ true
      → (filter key (update_where (λ r. key r && test r) change rows).0 ≡ change d ∷ [])
        × ((update_where (λ r. key r && test r) change rows).1 ≡ change d ∷ [])
  unfolding filter update_where
  filter-update_where test change k [] d h t = ground arith
  filter-update_where test change k (r ∷ rows) d h t = elim (Bool-cases (key r)) [
    | inl e ↦
        let (same, others) = cons_parts (rw e at h) in
        let none = filter_nil rows others in
        let stay =
          update_where-none (λ r. key r && test r) change rows
            (All-imp (λ r. key r ≡ false) _ (λ r q. rw q refl) rows none) in
        rw (e, ap test same ∙ t, stay, k r e, others, ap change same) (refl, refl)
    | inr e ↦
        let (p, q) = filter-update_where test change k rows d (rw e at h) t in rw (e, e) (p, q)
  ]
