-- ===== src/Csv/Safe.antt =====
-- shared/csv.ts: no cell of the export is a formula.
use opencoi.Base.{
  ℕ, Bool, true, false, ◌≡◌, ◌⊎◌, refl, sym, subst, some, List, [], ◌∷◌, ◌++◌, map, arith, All,
  Text, trim_start, is_space, some-inj, ◌==◌, ◌∙◌, Bool-cases, inl, inr, codes, any,
}
use opencoi.Csv.{
  CsvScalar, string, neutralize_csv_injection, starts_with, is_dangerous, apostrophe, serialize_csv,
  starts_with_formula,
}
use opencoi.Csv.Reader.{read, at_field}
use opencoi.Csv.RoundTrip.{IsCons, shown_row, read-serialize_csv}

abbrev AreSpaces : Text → Type 0
AreSpaces = All (λ d. is_space d ≡ true)

abbrev pub is_one_of : Text → ℕ → Bool
is_one_of characters c = any (λ d. c == d) characters

-- A spreadsheet takes the text for no formula: it begins with no tab, carriage return or line feed, and
-- after any white space comes none of the characters of a formula that docs/THREAT_MODEL.md names.
pub record IsInert (t : Text) : Type 0 where
  pub no_control : (c : ℕ) (rest : Text) → t ≡ c ∷ rest → is_one_of (codes "\t\r\n") c ≡ false
  pub no_formula :
      (spaces : Text) (c : ℕ) (rest : Text)
      → AreSpaces spaces
      → t ≡ spaces ++ (c ∷ rest)
      → is_one_of (codes "=+-@") c ≡ false

-- What comes after white space is what `trimStart` leaves, or white space itself.
trim_start-spaces :
    (spaces : Text) (c : ℕ) (rest : Text)
    → AreSpaces spaces
    → is_space c ≡ false
    → trim_start (spaces ++ (c ∷ rest)) ≡ c ∷ rest
unfolding trim_start
trim_start-spaces [] c rest h q = rw q refl
trim_start-spaces (d ∷ spaces) c rest h q = rw h.0 (trim_start-spaces spaces c rest h.1 q)

space_is_no_formula : (c : ℕ) → is_space c ≡ true → is_one_of (codes "=+-@") c ≡ false
unfolding is_space any
space_is_no_formula c h = ground arith

formula_start :
    (c : ℕ) (rest : Text)
    → starts_with_formula (c ∷ rest) ≡ false
    → is_one_of (codes "=+-@") c ≡ false
unfolding starts_with any
formula_start c rest h = ground arith

safe-IsInert : (t : Text) → is_dangerous t ≡ false → IsInert t
unfolding is_dangerous starts_with any
safe-IsInert t h = record {
  no_control = λ c rest e. ground (arith, subst (λ u. is_dangerous u ≡ false) e h);
  no_formula = λ spaces c rest s e. elim (Bool-cases (is_space c)) [
    | inl q ↦ space_is_no_formula c q
    | inr q ↦ formula_start c rest (
        subst (λ u. starts_with_formula u ≡ false) (trim_start-spaces spaces c rest s q)
          (no_formula_part _ (subst (λ u. is_dangerous u ≡ false) e h)))
  ];
}
  where
    no_formula_part :
        (u : Text) → is_dangerous u ≡ false → starts_with_formula (trim_start u) ≡ false
    no_formula_part u k = ground arith

apostrophe_safe : (t : Text) → starts_with apostrophe t ≡ true → is_dangerous t ≡ false
unfolding is_dangerous starts_with trim_start is_space
apostrophe_safe [] h = ground arith
apostrophe_safe (c ∷ t) h = subst (λ d. is_dangerous (d ∷ t) ≡ false) (sym (is_apostrophe c h)) refl
  where
    is_apostrophe : (d : ℕ) → (d == apostrophe) ≡ true → d ≡ apostrophe
    is_apostrophe d k = ground arith

neutralize_csv_injection-safe : (v : Text) → is_dangerous (neutralize_csv_injection v) ≡ false
unfolding neutralize_csv_injection starts_with
neutralize_csv_injection-safe v =
    ground (arith, apostrophe_safe v, apostrophe_safe (apostrophe ∷ v) refl)

-- `neutralizeCsvInjection` gives the value itself, or the value after an apostrophe, and leaves values
-- that are not dangerous and its own results as they are.
neutralize_csv_injection-keeps :
    (v : Text)
    → ((neutralize_csv_injection v ≡ v) ⊎ (neutralize_csv_injection v ≡ apostrophe ∷ v))
      × (neutralize_csv_injection (neutralize_csv_injection v) ≡ neutralize_csv_injection v)
      × (is_dangerous v ≡ false → neutralize_csv_injection v ≡ v)
unfolding neutralize_csv_injection starts_with
neutralize_csv_injection-keeps v = (ground arith, ground (arith, starts v), ground arith)
  where
    starts : (v : Text) → starts_with apostrophe (apostrophe ∷ v) ≡ true
    starts v = refl

All-IsInert : (row : List CsvScalar) → All IsInert (shown_row row)
All-IsInert [] = tt
All-IsInert (v ∷ row) = (safe-IsInert _ (neutralize_csv_injection-safe (string v)), All-IsInert row)

rows-IsInert : (rows : List (List CsvScalar)) → All (All IsInert) (map shown_row rows)
rows-IsInert [] = tt
rows-IsInert (row ∷ rows) = (All-IsInert row, rows-IsInert rows)

-- Whatever values an export of rows that each have a cell holds, no field that a strict reader of
-- RFC 4180 finds in it begins with a tab, a carriage return or a line feed, or has `=`, `+`, `-` or
-- `@` as its first character after white space.
pub read-serialize_csv-IsInert :
    (rows : List (List CsvScalar)) (records : List (List Text))
    → IsCons rows
    → All IsCons rows
    → read at_field (serialize_csv rows) ≡ some records
    → All (All IsInert) records
read-serialize_csv-IsInert rows records c cs h =
    subst (All (All IsInert)) (some-inj (sym (read-serialize_csv rows c cs) ∙ h))
      (rows-IsInert rows)
