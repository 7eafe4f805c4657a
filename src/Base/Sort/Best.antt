-- ===== src/Base/Sort/Best.antt =====
-- What the first element of a sorted array is: an element, and one that none precedes.
use opencoi.Base.Lists.{All, head?, All-imp}
use opencoi.Base.Sort.{insert_sorted, sort}
use Prim.Native.Nat.{Ordering}
use mathlib.Core.Path.{◌≡◌, refl, subst}
use mathlib.Core.Logic.{◌≢◌}
use mathlib.Core.List.{List, [], ◌∷◌}
use mathlib.Core.Option.{none, some}
use native.Mathlib.Omega.{arith}
use opencoi.Base.Tests.{some-inj}

module _ {ℓ κ} {A : Type ℓ} (cmp : A → A → Ordering) (P : A → Type κ) where
  All-insert_sorted : (x : A) (ys : List A) → P x → All P ys → All P (insert_sorted cmp x ys)
  unfolding insert_sorted
  All-insert_sorted x [] p h = (p, tt)
  All-insert_sorted x (y ∷ ys) p h = go (cmp x y) (All-insert_sorted x ys p h.1)
    where
      go :
          (o : Ordering)
          → All P (insert_sorted cmp x ys)
          → All P (elim o [ Ordering.gt ↦ y ∷ insert_sorted cmp x ys | _ ↦ x ∷ y ∷ ys ])
      go Ordering.gt k = (h.0, k)
      go _ k = (p, h)

  All-of_insert_sorted : (x : A) (ys : List A) → All P (insert_sorted cmp x ys) → P x × All P ys
  unfolding insert_sorted
  All-of_insert_sorted x [] h = h
  All-of_insert_sorted x (y ∷ ys) h = go (cmp x y) (All-of_insert_sorted x ys) h
    where
      go :
          (o : Ordering)
          → (All P (insert_sorted cmp x ys) → P x × All P ys)
          → All P (elim o [ Ordering.gt ↦ y ∷ insert_sorted cmp x ys | _ ↦ x ∷ y ∷ ys ])
          → P x × All P (y ∷ ys)
      go Ordering.gt k h = let (p, q) = k h.1 in (p, (h.0, q))
      go _ k h = h

  pub All-of_sort : (xs : List A) → All P (sort cmp xs) → All P xs
  unfolding sort
  All-of_sort [] h = tt
  All-of_sort (x ∷ xs) h =
      let (p, q) = All-of_insert_sorted x (sort cmp xs) h in (p, All-of_sort xs q)

  pub All-sort : (xs : List A) → All P xs → All P (sort cmp xs)
  unfolding sort
  All-sort [] h = tt
  All-sort (x ∷ xs) h = All-insert_sorted x (sort cmp xs) h.0 (All-sort xs h.1)

  pub All-head? : (xs : List A) {x : A} → All P xs → head? xs ≡ some x → P x
  All-head? [] h e = ground arith
  All-head? (y ∷ ys) h e = subst P (some-inj e) h.0

  -- The first element of the sorted array has what all elements have.
  pub All-best : (xs : List A) {x : A} → All P xs → head? (sort cmp xs) ≡ some x → P x
  All-best xs h e = All-head? (sort cmp xs) (All-sort xs h) e

module _ {ℓ} {A : Type ℓ} (cmp : A → A → Ordering) where
  head?-insert_sorted : (x : A) (ys : List A) → head? (insert_sorted cmp x ys) ≢ none
  unfolding insert_sorted
  head?-insert_sorted x [] h = ground arith
  head?-insert_sorted x (y ∷ ys) h = ground arith

  -- A sorted array is empty only if the array was.
  pub head?-sort : (x : A) (xs : List A) → head? (sort cmp (x ∷ xs)) ≢ none
  unfolding sort
  head?-sort x xs = head?-insert_sorted x (sort cmp xs)

-- No element is before the first one, by a comparison that is consistent.
module _ {ℓ} {A : Type ℓ} (cmp : A → A → Ordering)
    (asym : (a b : A) → cmp a b ≡ Ordering.gt → cmp b a ≡ Ordering.lt)
    (trans : (a b c : A)
      → cmp a b ≢ Ordering.gt
      → cmp b c ≢ Ordering.gt
      → cmp a c ≢ Ordering.gt) where
  -- `x` is not after any element of the list
  abbrev NotAfter : A → List A → Type 0
  NotAfter x ys = All (λ y. cmp x y ≢ Ordering.gt) ys

  -- every element is before all later ones, or level with them
  abbrev IsSorted : List A → Type 0
  IsSorted [] = Unit
  IsSorted (x ∷ xs) = NotAfter x xs × IsSorted xs

  before : (x y : A) (ys : List A) → cmp x y ≢ Ordering.gt → NotAfter y ys → NotAfter x (y ∷ ys)
  before x y ys n h = (
    n,
    All-imp (λ z. cmp y z ≢ Ordering.gt) (λ z. cmp x z ≢ Ordering.gt) (λ z. trans x y z n) ys h,
  )

  IsSorted-insert_sorted : (x : A) (ys : List A) → IsSorted ys → IsSorted (insert_sorted cmp x ys)
  unfolding insert_sorted
  IsSorted-insert_sorted x [] h = (tt, tt)
  IsSorted-insert_sorted x (y ∷ ys) h = go (cmp x y) refl (IsSorted-insert_sorted x ys h.1)
    where
      go :
          (o : Ordering)
          → cmp x y ≡ o
          → IsSorted (insert_sorted cmp x ys)
          → IsSorted (elim o [ Ordering.gt ↦ y ∷ insert_sorted cmp x ys | _ ↦ x ∷ y ∷ ys ])
      go Ordering.gt e k =
          (All-insert_sorted cmp (λ z. cmp y z ≢ Ordering.gt) x ys (λ g. cc (asym x y e)) h.0, k)
      go Ordering.lt e k = (before x y ys (λ g. cc) h.0, h)
      go Ordering.eq e k = (before x y ys (λ g. cc) h.0, h)

  IsSorted-sort : (xs : List A) → IsSorted (sort cmp xs)
  unfolding sort
  IsSorted-sort [] = tt
  IsSorted-sort (x ∷ xs) = IsSorted-insert_sorted x (sort cmp xs) (IsSorted-sort xs)

  refl_not_gt : (a b : A) → a ≡ b → cmp b a ≢ Ordering.gt
  refl_not_gt a b e g = cc (asym b a g)

  -- The first element of a sorted array is after no element of the array.
  pub best-NotAfter : (xs : List A) {x : A} → head? (sort cmp xs) ≡ some x → NotAfter x xs
  best-NotAfter xs {x} e =
      All-of_sort cmp (λ y. cmp x y ≢ Ordering.gt) xs (first (sort cmp xs) (IsSorted-sort xs) e)
    where
      first : (ys : List A) → IsSorted ys → head? ys ≡ some x → NotAfter x ys
      first [] h e = tt
      first (y ∷ ys) h e =
          (refl_not_gt y x (some-inj e), subst (λ w. NotAfter w ys) (some-inj e) h.0)
