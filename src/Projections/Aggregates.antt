-- ===== src/Projections/Aggregates.antt =====
-- server/services/projections.ts: what the aggregates of the list are in the terms of one vendor.
use opencoi.Base.{
  ℕ, ◌≡◌, refl, sym, ap, ◌∙◌, Bool, not, ◌&&◌, Option, none, some, List, [], ◌∷◌, arith, Text,
  filter, length, compare, head?, Bool-cases, inl, inr,
}
use opencoi.Base.Sort.{sort, insert_sorted}
use opencoi.Projections.{
  PolicyRow, FindingRow, RequirementRow, Tables, dates_of, of_certificate, is_excepted, is_failure,
}
use opencoi.Projections.Reference.{first_date, days_of, max_of}
use opencoi.Projections.Listed.{lesser, sql_min, sql_max_days, sum_case}

head?-insert_sorted :
    (n : ℕ) (ns : List ℕ) → head? (insert_sorted compare n ns) ≡ lesser (some n) (head? ns)
unfolding insert_sorted
head?-insert_sorted n [] = refl
head?-insert_sorted n (m ∷ ns) = ground arith

sorted_first :
    (d : ℕ) (ds : List ℕ)
    → head? (sort compare (d ∷ ds)) ≡ lesser (some d) (head? (sort compare ds))
unfolding sort
sorted_first d ds = head?-insert_sorted d (sort compare ds)

-- One date more, or `NULL`.
next_date :
    (d : Option ℕ) (ds : List ℕ)
    → lesser d (head? (sort compare ds))
      ≡ head? (sort compare (elim d [ none ↦ ds | some n ↦ n ∷ ds ]))
next_date none ds = refl
next_date (some n) ds = sym (sorted_first n ds)

-- The smallest date that is not `NULL` is the first of the sorted ones.
pub sql_min-first_date :
    (column : PolicyRow → Option ℕ) (ps : List PolicyRow) → sql_min column ps ≡ first_date column ps
sql_min-first_date column [] = unfold sort in refl
sql_min-first_date column (p ∷ ps) =
    ap (lesser (column p)) (sql_min-first_date column ps)
    ∙ next_date (column p) (dates_of column ps)

-- An optional requirement adds nothing to the maximum.
pub sql_max_days-max_of :
    (r : RequirementRow) (rs : List RequirementRow)
    → sql_max_days (r ∷ rs) ≡ some (max_of (days_of (r ∷ rs)))
unfolding filter
sql_max_days-max_of r [] = ground arith
sql_max_days-max_of r (s ∷ rs) = elim (Bool-cases r.required) [
  | inl e ↦ rw (e, sql_max_days-max_of s rs) (ground arith)
  | inr e ↦ rw (e, sql_max_days-max_of s rs) (ground arith)
]

pub sum_case-filter :
    (test : FindingRow → Bool) (fs : List FindingRow) → sum_case test fs ≡ length (filter test fs)
unfolding filter
sum_case-filter test [] = refl
sum_case-filter test (f ∷ fs) = elim (Bool-cases (test f)) [
  | inl e ↦ rw (e, sum_case-filter test fs) (omega arith)
  | inr e ↦ rw (e, sum_case-filter test fs) (omega arith)
]

-- The failures of a certificate without an active exception, counted in one pass or two.
pub sum_case-unexcepted :
    (id : Text) (at : ℕ) (db : Tables) (fs : List FindingRow)
    → sum_case
        (λ (f : FindingRow).
          f.is_open && is_failure f.evaluation_status && not (is_excepted at db.exceptions f))
        (filter (of_certificate id) fs)
      ≡ length (
          filter
            (λ (f : FindingRow).
              of_certificate id f
              && is_failure f.evaluation_status
              && f.is_open
              && not (is_excepted at db.exceptions f))
            fs)
unfolding filter
sum_case-unexcepted id at db [] = refl
sum_case-unexcepted id at db (f ∷ fs) = ground (arith, sum_case-unexcepted id at db fs)
