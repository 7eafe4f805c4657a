-- ===== src/Base/Sort.antt =====
-- Array.prototype.sort with a comparator: a stable sort.
pub mod Best
use Prim.Native.Nat.{Ordering}
use mathlib.Core.List.{List, [], ◌∷◌}
use Prim.Native.Nat.{ℕ, compare}
use mathlib.Core.Bool.{not}
use opencoi.Base.Lists.{filter}
use opencoi.Base.Texts.{Text, text_eq}

-- `negative || next`: the second comparison decides when the first finds no difference.
abbrev pub or_else : Ordering → Ordering → Ordering
or_else Ordering.eq next = next
or_else Ordering.lt next = Ordering.lt
or_else Ordering.gt next = Ordering.gt

-- Texts by their code units.
unfoldable pub compare_texts : Text → Text → Ordering
compare_texts [] [] = Ordering.eq
compare_texts [] (b ∷ t) = Ordering.lt
compare_texts (a ∷ s) [] = Ordering.gt
compare_texts (a ∷ s) (b ∷ t) = or_else (compare a b) (compare_texts s t)

module _ {ℓ} {A : Type ℓ} where
  unfoldable pub insert_sorted : (A → A → Ordering) → A → List A → List A
  insert_sorted cmp x [] = x ∷ []
  insert_sorted cmp x (y ∷ ys) =
      let rest = insert_sorted cmp x ys in
      elim (cmp x y) [ Ordering.gt ↦ y ∷ rest | _ ↦ x ∷ y ∷ ys ]

  unfoldable pub sort : (A → A → Ordering) → List A → List A
  sort cmp [] = []
  sort cmp (x ∷ xs) = insert_sorted cmp x (sort cmp xs)

-- `new Set(...)`: each text at its first place.
unfoldable pub unique_texts : List Text → List Text
unique_texts [] = []
unique_texts (t ∷ ts) = t ∷ filter (λ u. not (text_eq u t)) (unique_texts ts)

-- `[...new Set(...)].sort()`
unfoldable pub sorted_set : List Text → List Text
sorted_set texts = sort compare_texts (unique_texts texts)
