-- ===== src/Base/Lists.antt =====
-- Lists measured by native numbers, searched, filtered and walked by fallible functions.
use Prim.Native.Nat.{ℕ, zero, suc, ◌+◌}
use mathlib.Core.Path.{◌≡◌, refl, sym, ap}
use mathlib.Core.Bool.{Bool, true, false, ◌||◌}
use mathlib.Core.Logic.{inl, inr}
use mathlib.Core.List.{List, [], ◌∷◌, ◌++◌, map, Memᴰ}
use mathlib.Core.Option.{Option, none, some}
use native.Mathlib.Omega.{arith}
use opencoi.Base.Tests.{if◌then◌else◌, ◌>>=◌, >>=-eq-some, some-inj, Bool-cases}

abbrev pub All {ℓ κ} : {A : Type ℓ} → (A → Type κ) → List A → Type κ
All P [] = Unit
All P (x ∷ xs) = P x × All P xs

pub All-append {ℓ κ} :
    {A : Type ℓ} (P : A → Type κ) (xs ys : List A) → All P xs → All P ys → All P (xs ++ ys)
All-append P [] ys h k = k
All-append P (x ∷ xs) ys h k = (h.0, All-append P xs ys h.1 k)

pub All-append-left {ℓ κ} :
    {A : Type ℓ} (P : A → Type κ) (xs ys : List A) → All P (xs ++ ys) → All P xs
All-append-left P [] ys h = tt
All-append-left P (x ∷ xs) ys h = (h.0, All-append-left P xs ys h.1)

pub All-append-right {ℓ κ} :
    {A : Type ℓ} (P : A → Type κ) (xs ys : List A) → All P (xs ++ ys) → All P ys
All-append-right P [] ys h = h
All-append-right P (x ∷ xs) ys h = All-append-right P xs ys h.1

pub All-imp {ℓ κ μ} :
    {A : Type ℓ} (P : A → Type κ) (Q : A → Type μ)
    → ((x : A) → P x → Q x)
    → (xs : List A) → All P xs
    → All Q xs
All-imp P Q f [] h = tt
All-imp P Q f (x ∷ xs) h = (f x h.0, All-imp P Q f xs h.1)

pub All-both {ℓ κ μ} :
    {A : Type ℓ} (P : A → Type κ) (Q : A → Type μ) (xs : List A)
    → All P xs
    → All Q xs
    → All (λ x. P x × Q x) xs
All-both P Q [] h k = tt
All-both P Q (x ∷ xs) h k = ((h.0, k.0), All-both P Q xs h.1 k.1)

pub All-map {ℓ κ μ} :
    {A : Type ℓ} {B : Type κ} (P : B → Type μ) (f : A → B)
    → ((x : A) → P (f x))
    → (xs : List A) → All P (map f xs)
All-map P f h [] = tt
All-map P f h (x ∷ xs) = (h x, All-map P f h xs)

pub All-Memᴰ {ℓ κ} :
    {A : Type ℓ} (P : A → Type κ) (xs : List A) {a : A} → All P xs → Memᴰ a xs → P a
All-Memᴰ P [] h m = elim m [ ]
All-Memᴰ {A} P (x ∷ xs) h (Memᴰ.head e) = cast (sym e) h.0
  where
    cast : {u v : A} → u ≡ v → P u → P v
    cast e p = mathlib.Core.Path.subst P e p
All-Memᴰ P (x ∷ xs) h (Memᴰ.tail m) = All-Memᴰ P xs h.1 m

pub All-of_forall {ℓ κ} :
    {A : Type ℓ} (P : A → Type κ) (xs : List A) → ((a : A) → Memᴰ a xs → P a) → All P xs
All-of_forall P [] h = tt
All-of_forall P (x ∷ xs) h = (h x (Memᴰ.head refl), All-of_forall P xs (λ a m. h a (Memᴰ.tail m)))

module _ {ℓ} {A : Type ℓ} where
  abbrev pub length : List A → ℕ
  length [] = 0
  length (x ∷ xs) = suc (length xs)

  pub length-append : (xs ys : List A) → length (xs ++ ys) ≡ length xs + length ys
  length-append [] ys = omega arith
  length-append (x ∷ xs) ys = omega (arith, length-append xs ys)

  abbrev pub get_or : List A → ℕ → A → A
  get_or [] i d = d
  get_or (x ∷ xs) zero d = x
  get_or (x ∷ xs) (suc i) d = get_or xs i d

  -- Array.prototype.some
  unfoldable pub any : (A → Bool) → List A → Bool
  any p [] = false
  any p (x ∷ xs) = p x || any p xs

  -- Array.prototype.find
  unfoldable pub find : (A → Bool) → List A → Option A
  find p [] = none
  find p (x ∷ xs) = if p x then some x else find p xs

  -- Array.prototype.filter
  unfoldable pub filter : (A → Bool) → List A → List A
  filter p [] = []
  filter p (x ∷ xs) = let rest = filter p xs in if p x then x ∷ rest else rest

  -- The first element, `undefined` of an empty array.
  abbrev pub head? : List A → Option A
  head? [] = none
  head? (x ∷ xs) = some x

-- A fallible function over a list, in order; one failure fails the whole.
unfoldable pub traverse {ℓ κ} :
    {A : Type ℓ} {B : Type κ} → (A → Option B) → List A → Option (List B)
traverse f [] = some []
traverse f (x ∷ xs) = f x >>= λ y. traverse f xs >>= λ ys. some (y ∷ ys)

-- What follows of each result from what holds of its argument holds of all.
pub traverse-All {ℓ κ μ ν} :
    {A : Type ℓ} {B : Type κ} (f : A → Option B) (Q : A → Type ν) (P : B → Type μ)
    → ((x : A) (y : B) → Q x → f x ≡ some y → P y)
    → (xs : List A) (ys : List B) → All Q xs
    → traverse f xs ≡ some ys
    → All P ys
unfolding traverse
traverse-All f Q P h [] ys q e = mathlib.Core.Path.subst (All P) (some-inj e) tt
traverse-All f Q P h (x ∷ xs) ys q e =
    let (y, p, e') = >>=-eq-some (f x) (λ y. traverse f xs >>= λ ys. some (y ∷ ys)) e in
    let (zs, r, e'') = >>=-eq-some (traverse f xs) (λ ys. some (y ∷ ys)) e' in
    mathlib.Core.Path.subst (All P) (some-inj e'') (h x y q.0 p, traverse-All f Q P h xs zs q.1 r)

-- Where each argument has a result, the list has one.
pub traverse_returns {ℓ κ} :
    {A : Type ℓ} {B : Type κ} (f : A → Option B) (xs : List A)
    → All (λ x. (y : B) × (f x ≡ some y)) xs
    → (ys : List B) × (traverse f xs ≡ some ys)
unfolding traverse
traverse_returns f [] h = ([], refl)
traverse_returns f (x ∷ xs) h =
    let (y, p) = h.0 in let (ys, q) = traverse_returns f xs h.1 in (y ∷ ys, ground (arith, p, q))

-- Each argument has a result, and of it holds what holds of all results.
pub All-traverse {ℓ κ μ ν} :
    {A : Type ℓ} {B : Type κ} (f : A → Option B) (P : B → Type μ) (Q : A → Type ν)
    → ((x : A) (y : B) → f x ≡ some y → P y → Q x)
    → (xs : List A) (ys : List B) → traverse f xs ≡ some ys
    → All P ys
    → All Q xs
unfolding traverse
All-traverse f P Q h [] ys e k = tt
All-traverse f P Q h (x ∷ xs) ys e k =
    let (y, p, e') = >>=-eq-some (f x) (λ y. traverse f xs >>= λ ys. some (y ∷ ys)) e in
    let (zs, r, e'') = >>=-eq-some (traverse f xs) (λ ys. some (y ∷ ys)) e' in
    let all = mathlib.Core.Path.subst (All P) (sym (some-inj e'')) k in
    (h x y p all.0, All-traverse f P Q h xs zs r all.1)

pub All-unit {ℓ} : {A : Type ℓ} (xs : List A) → All (λ _. Unit {0}) xs
All-unit [] = tt
All-unit (x ∷ xs) = (tt, All-unit xs)

pub All-of_map {ℓ κ μ} :
    {A : Type ℓ} {B : Type κ} (P : B → Type μ) (f : A → B) (xs : List A)
    → All P (map f xs)
    → All (λ x. P (f x)) xs
All-of_map P f [] h = tt
All-of_map P f (x ∷ xs) h = (h.0, All-of_map P f xs h.1)

module _ {ℓ} {A : Type ℓ} (p : A → Bool) where
  pub any-false : (xs : List A) → All (λ x. p x ≡ false) xs → any p xs ≡ false
  unfolding any
  any-false [] h = refl
  any-false (x ∷ xs) h = ground (arith, h.0, any-false xs h.1)

  pub All-of_any : (xs : List A) → any p xs ≡ false → All (λ x. p x ≡ false) xs
  unfolding any
  All-of_any [] h = tt
  All-of_any (x ∷ xs) h = (ground arith, All-of_any xs (ground arith))

  pub any-Memᴰ : (xs : List A) → any p xs ≡ true → (x : A) × Memᴰ x xs × (p x ≡ true)
  unfolding any
  any-Memᴰ [] h = ground arith
  any-Memᴰ (x ∷ xs) h = elim (Bool-cases (p x)) [
    | inl e ↦ (x, Memᴰ.head refl, e)
    | inr e ↦ let (y, m, q) = any-Memᴰ xs (rw e at h) in (y, Memᴰ.tail m, q)
  ]

  pub any_of_Memᴰ : (xs : List A) {x : A} → Memᴰ x xs → p x ≡ true → any p xs ≡ true
  unfolding any
  any_of_Memᴰ [] m h = elim m [ ]
  any_of_Memᴰ (y ∷ ys) (Memᴰ.head e) h = ground arith
  any_of_Memᴰ (y ∷ ys) (Memᴰ.tail m) h = ground (arith, any_of_Memᴰ ys m h)

  filter_keep :
      (y : A) (ys : List A) {x : A}
      → p y ≡ true
      → (Memᴰ x (filter p ys) → Memᴰ x ys × (p x ≡ true))
      → Memᴰ x (y ∷ filter p ys)
      → Memᴰ x (y ∷ ys) × (p x ≡ true)
  filter_keep y ys e ih (Memᴰ.head q) = (Memᴰ.head q, rw q e)
  filter_keep y ys e ih (Memᴰ.tail n) = let (k, q) = ih n in (Memᴰ.tail k, q)

  pub Memᴰ-filter : (xs : List A) {x : A} → Memᴰ x (filter p xs) → Memᴰ x xs × (p x ≡ true)
  unfolding filter
  Memᴰ-filter [] m = elim m [ ]
  Memᴰ-filter (y ∷ ys) m = elim (Bool-cases (p y)) [
    | inl e ↦ filter_keep y ys e (Memᴰ-filter ys) (rw e at m)
    | inr e ↦ let (n, q) = Memᴰ-filter ys (rw e at m) in (Memᴰ.tail n, q)
  ]

  pub Memᴰ_of_filter : (xs : List A) {x : A} → Memᴰ x xs → p x ≡ true → Memᴰ x (filter p xs)
  unfolding filter
  Memᴰ_of_filter [] m h = elim m [ ]
  Memᴰ_of_filter (y ∷ ys) (Memᴰ.head q) h = rw (← q) (rw h (Memᴰ.head refl))
  Memᴰ_of_filter (y ∷ ys) (Memᴰ.tail m) h = elim (Bool-cases (p y)) [
    | inl e ↦ rw e (Memᴰ.tail (Memᴰ_of_filter ys m h))
    | inr e ↦ rw e (Memᴰ_of_filter ys m h)
  ]

  -- `find` returns an element that passes, or none passes.
  pub find-eq-some : (xs : List A) {x : A} → find p xs ≡ some x → Memᴰ x xs × (p x ≡ true)
  unfolding find
  find-eq-some [] h = ground arith
  find-eq-some (y ∷ ys) {x} h = elim (Bool-cases (p y)) [
    | inl e ↦ let q : y ≡ x = some-inj (rw e at h) in (Memᴰ.head (sym q), rw (← q) e)
    | inr e ↦ let (m, q) = find-eq-some ys (rw e at h) in (Memᴰ.tail m, q)
  ]

  pub find-eq-none : (xs : List A) → find p xs ≡ none → All (λ x. p x ≡ false) xs
  unfolding find
  find-eq-none [] h = tt
  find-eq-none (y ∷ ys) h = elim (Bool-cases (p y)) [
    | inl e ↦ ground arith
    | inr e ↦ (e, find-eq-none ys (rw e at h))
  ]

  -- `find` returns one where an element passes.
  pub find_of_Memᴰ : (xs : List A) {x : A} → Memᴰ x xs → p x ≡ true → (y : A) × (find p xs ≡ some y)
  unfolding find
  find_of_Memᴰ [] m h = elim m [ ]
  find_of_Memᴰ (y ∷ ys) (Memᴰ.head q) h = (y, rw (ap p (sym q)) (rw h refl))
  find_of_Memᴰ (y ∷ ys) (Memᴰ.tail m) h = elim (Bool-cases (p y)) [
    | inl e ↦ (y, rw e refl)
    | inr e ↦ let (z, q) = find_of_Memᴰ ys m h in (z, rw e q)
  ]

-- `slice(0, n)`, `LIMIT`
unfoldable pub take {ℓ} : {A : Type ℓ} → ℕ → List A → List A
take zero xs = []
take (suc n) [] = []
take (suc n) (x ∷ xs) = x ∷ take n xs

pub All-take {ℓ κ} :
    {A : Type ℓ} (P : A → Type κ) (n : ℕ) (xs : List A) → All P xs → All P (take n xs)
unfolding take
All-take P zero xs h = tt
All-take P (suc n) [] h = tt
All-take P (suc n) (x ∷ xs) h = (h.0, All-take P n xs h.1)
