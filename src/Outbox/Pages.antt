-- ===== src/Outbox/Pages.antt =====
-- server/services/domainEvents.ts: what a page of the feed holds.
use opencoi.Base.{
  ℕ, zero, suc, ◌+◌, ◌-◌, ◌≤◌, ◌<◌, ◌≡◌, refl, sym, subst, ap, ◌∙◌, true, false, List, [], ◌∷◌,
  ◌++◌, arith, Text, Bool-cases, inl, inr, filter, length, map, ltb, All, take, All-of_map, All-imp,
  if◌then◌else◌,
}
use opencoi.Base.Sort.{sort, insert_sorted}
use mathlib.Core.List.{map-append}
use opencoi.Outbox.{DomainEventRow}
use opencoi.Outbox.Publish.{last_sequence}
use opencoi.Outbox.Feed.{
  DomainEvent, domain_event_from_row, compare_events, is_after, clamp_limit, list_domain_events,
}
use opencoi.Outbox.Numbers.{is_of, IsNumbered, last_sequence-here, last_sequence-there}

abbrev number : DomainEventRow → ℕ
number e = e.sequence_number

-- The k numbers after n, in order.
abbrev pub up_from : ℕ → ℕ → List ℕ
up_from n zero = []
up_from n (suc k) = suc n ∷ up_from (suc n) k

up_from_snoc : (n k : ℕ) → up_from n k ++ (suc (n + k) ∷ []) ≡ up_from n (suc k)
up_from_snoc n zero = ap (λ m. suc m ∷ []) (omega arith)
up_from_snoc n (suc k) =
    ap (λ xs. suc n ∷ xs)
      (ap (λ m. up_from (suc n) k ++ (suc m ∷ [])) (omega arith) ∙ up_from_snoc (suc n) k)

up_from-bounded : (n k : ℕ) → All (λ m. m ≤ n + k) (up_from n k)
up_from-bounded n zero = tt
up_from-bounded n (suc k) = (
  omega arith,
  All-imp (λ m. m ≤ suc n + k) (λ m. m ≤ n + suc k) (λ m h. omega arith) _
      (up_from-bounded (suc n) k),
)

take-up_from_all : (i n k : ℕ) → k ≤ i → take i (up_from n k) ≡ up_from n k
unfolding take
take-up_from_all zero n zero h = refl
take-up_from_all zero n (suc k) h = ground arith
take-up_from_all (suc i) n zero h = refl
take-up_from_all (suc i) n (suc k) h =
    ap (λ xs. suc n ∷ xs) (take-up_from_all i (suc n) k (omega arith))

take-up_from_some : (i n k : ℕ) → i ≤ k → take i (up_from n k) ≡ up_from n i
unfolding take
take-up_from_some zero n k h = refl
take-up_from_some (suc i) n zero h = ground arith
take-up_from_some (suc i) n (suc k) h =
    ap (λ xs. suc n ∷ xs) (take-up_from_some i (suc n) k (omega arith))

-- The smaller of two numbers.
abbrev pub lower : ℕ → ℕ → ℕ
lower i k = if ltb i k then i else k

take-up_from : (i n k : ℕ) → take i (up_from n k) ≡ up_from n (lower i k)
take-up_from i n k = elim (Bool-cases (ltb i k)) [
  | inl e ↦ rw e (take-up_from_some i n k (ground arith))
  | inr e ↦ rw e (take-up_from_all i n k (ground arith))
]

length-up_from : (n k : ℕ) → length (up_from n k) ≡ k
length-up_from n zero = refl
length-up_from n (suc k) = ap suc (length-up_from (suc n) k)

module _ {A B : Type 0} (f : A → B) where
  map-take : (i : ℕ) (xs : List A) → map f (take i xs) ≡ take i (map f xs)
  unfolding take
  map-take zero xs = refl
  map-take (suc i) [] = refl
  map-take (suc i) (x ∷ xs) = ap (λ ys. f x ∷ ys) (map-take i xs)

  length-map : (xs : List A) → length (map f xs) ≡ length xs
  length-map [] = refl
  length-map (x ∷ xs) = ap suc (length-map xs)

take-take : {A : Type 0} (i : ℕ) (xs : List A) → take i (take (suc i) xs) ≡ take i xs
unfolding take
take-take zero xs = refl
take-take (suc i) [] = refl
take-take (suc i) (x ∷ xs) = ap (λ ys. x ∷ ys) (take-take i xs)

-- An event after all others of a list goes to its end.
insert_last :
    (e : DomainEventRow) (es : List DomainEventRow)
    → All (λ x. number x < number e) es
    → insert_sorted compare_events e es ≡ es ++ (e ∷ [])
unfolding insert_sorted compare_events
insert_last e [] h = refl
insert_last e (x ∷ es) h = ground (arith, insert_last e es h.1, h.0)

-- The rows of a page before its limit.
abbrev rows_after : Text → ℕ → List DomainEventRow → List DomainEventRow
rows_after o n es = sort compare_events (filter (is_after o n) es)

rows_after-bounded :
    (o : Text) (n : ℕ) (e : DomainEventRow) (es : List DomainEventRow)
    → map number (rows_after o n es) ≡ up_from n (last_sequence o es - n)
    → number e ≡ suc (last_sequence o es)
    → n < number e
    → All (λ x. number x < number e) (rows_after o n es)
rows_after-bounded o n e es h k l =
    All-imp (λ x. number x ≤ n + (last_sequence o es - n)) (λ x. number x < number e)
      (λ x q. omega arith) _
      (All-of_map (λ m. m ≤ n + (last_sequence o es - n)) number _
        (subst (All (λ m. m ≤ n + (last_sequence o es - n))) (sym h)
          (up_from-bounded n (last_sequence o es - n))))

is_after-of :
    (o : Text) (n : ℕ) (e : DomainEventRow)
    → is_after o n e ≡ true
    → (is_of o e ≡ true) × (n < number e)
unfolding is_after
is_after-of o n e h = ground arith

not_after :
    (o : Text) (n : ℕ) (e : DomainEventRow)
    → is_after o n e ≡ false
    → is_of o e ≡ true
    → number e ≤ n
unfolding is_after
not_after o n e h k = ground arith

-- One event more at the end of those after the n-th.
numbers_snoc :
    (o : Text) (n : ℕ) (e : DomainEventRow) (es : List DomainEventRow)
    → map number (rows_after o n es) ≡ up_from n (last_sequence o es - n)
    → number e ≡ suc (last_sequence o es)
    → n < number e
    → map number (insert_sorted compare_events e (rows_after o n es))
      ≡ up_from n (suc (last_sequence o es) - n)
numbers_snoc o n e es h k l =
    ap (map number) (insert_last e _ (rows_after-bounded o n e es h k l))
    ∙ map-append number (rows_after o n es) (e ∷ [])
    ∙ ap (λ ns. ns ++ (number e ∷ [])) h
    ∙ ap (λ m. up_from n (last_sequence o es - n) ++ (m ∷ [])) (omega arith)
    ∙ up_from_snoc n (last_sequence o es - n)
    ∙ ap (up_from n) {x = suc (last_sequence o es - n)} (omega arith)

-- The rows after the n-th, in order, have the numbers after n up to the last.
numbers_after :
    (o : Text) (n : ℕ) (es : List DomainEventRow)
    → IsNumbered o es
    → map number (rows_after o n es) ≡ up_from n (last_sequence o es - n)
unfolding sort filter
numbers_after o n [] h = unfold last_sequence in (ap (up_from n) {x = 0} (omega arith))
numbers_after o n (e ∷ es) h = elim (Bool-cases (is_after o n e)) [
  | inl k ↦
      let (q, l) = is_after-of o n e k in
      rw (k, last_sequence-here o e es q (h.0 q))
        (numbers_snoc o n e es (numbers_after o n es h.1) (h.0 q) l)
  | inr k ↦ elim (Bool-cases (is_of o e)) [
    | inl q ↦
        rw (k, last_sequence-here o e es q (h.0 q))
          (numbers_after o n es h.1 ∙ ap (up_from n) (omega (arith, not_after o n e k q, h.0 q)))
    | inr q ↦ rw (k, last_sequence-there o e es q) (numbers_after o n es h.1)
  ]
]

sequence-number :
    (es : List DomainEventRow)
    → map (λ (e : DomainEvent). e.sequence) (map domain_event_from_row es) ≡ map number es
unfolding domain_event_from_row
sequence-number [] = refl
sequence-number (e ∷ es) = ap (λ ns. number e ∷ ns) (sequence-number es)

-- What a page takes of rows that are numbered.
page_numbers :
    (size n k : ℕ) (rows : List DomainEventRow)
    → map number rows ≡ up_from n k
    → (map number (take size (take (suc size) rows)) ≡ up_from n (lower size k))
      × (ltb size (length (take (suc size) rows)) ≡ ltb size k)
page_numbers size n k rows h = (
  map-take number size _
      ∙ ap (take size) (map-take number (suc size) rows)
      ∙ take-take size _
      ∙ ap (take size) h
      ∙ take-up_from size n k,
  ap (ltb size) (
        sym (length-map number (take (suc size) rows))
        ∙ ap length (map-take number (suc size) rows ∙ ap (take (suc size)) h)
        ∙ ap length (take-up_from (suc size) n k)
        ∙ length-up_from n (lower (suc size) k))
      ∙ ground arith,
)

-- A page of the feed holds the events of the organization after a number, in order and without a gap, at
-- most as many as its limit, from 1 to 100, allows, and it says that there are more exactly where there
-- are: n - after of them follow, where n is the number of the last event. So a reader that goes on from
-- the number of the last event of a page meets every event once.
pub list_domain_events-pages :
    (o : Text) (after limit : ℕ) (es : List DomainEventRow)
    → IsNumbered o es
    → (map (λ (e : DomainEvent). e.sequence) (list_domain_events o after limit es).events
        ≡ up_from after (lower (clamp_limit limit 100) (last_sequence o es - after)))
      × ((list_domain_events o after limit es).has_more
          ≡ ltb (clamp_limit limit 100) (last_sequence o es - after))
unfolding list_domain_events
list_domain_events-pages o after limit es h =
    let size = clamp_limit limit 100 in
    let step : size + 1 ≡ suc size = omega arith in
    let (p, q) = page_numbers size after _ (rows_after o after es) (numbers_after o after es h) in
    rw step (sequence-number _ ∙ p, q)
