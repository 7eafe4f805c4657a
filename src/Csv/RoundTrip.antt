-- ===== src/Csv/RoundTrip.antt =====
-- shared/csv.ts: what a reader makes of the export.
use opencoi.Base.{
  All, true, false, ◌≡◌, refl, sym, subst, ◌∙◌, some, List, [], ◌∷◌, ◌++◌, map, arith, any, ◌==◌,
  Text, Bool-cases, inl, inr, ◌⊎◌, ℕ,
}
use mathlib.Core.List.{append-nil, append_assoc}
use opencoi.Csv.{
  CsvScalar, string, neutralize_csv_injection, is_special, double_quotes, quoted_if_special,
  escape_csv_cell, join, comma, crlf, quote, serialize_csv_row, serialize_csv,
}
use opencoi.Csv.Reader.{
  at_field, plain, quoted, after_quote, read, read_char, read_end, push, act, is_plain, ends_field,
}

-- What stands after a field: the end, a comma or the end of the record.
abbrev IsStop : Text → Type 0
IsStop s = (s ≡ []) ⊎ ((u : Text) × ((s ≡ 44 ∷ u) ⊎ (s ≡ 13 ∷ u)))

read_char-plain : (c : ℕ) → is_special c ≡ false → read_char plain c ≡ some (plain, push c)
unfolding read_char is_special is_plain
read_char-plain c h = rw h

read-plain :
    (t s f : Text) (fs : List Text) (rs : List (List Text))
    → any is_special t ≡ false
    → read plain s ≡ some ((f ∷ fs) ∷ rs)
    → read plain (t ++ s) ≡ some (((t ++ f) ∷ fs) ∷ rs)
unfolding read act any
read-plain [] s f fs rs h k = k
read-plain (c ∷ t) s f fs rs h k =
    rw (read_char-plain c (ground arith), read-plain t s f fs rs (ground arith) k)

read-quoted :
    (t s f : Text) (fs : List Text) (rs : List (List Text))
    → read after_quote s ≡ some ((f ∷ fs) ∷ rs)
    → read quoted (double_quotes t ++ quote ∷ s) ≡ some (((t ++ f) ∷ fs) ∷ rs)
unfolding read read_char act double_quotes
read-quoted [] s f fs rs k = rw k
read-quoted (c ∷ t) s f fs rs k = elim (Bool-cases (c == quote)) [
  | inl e ↦ rw e (rw (read-quoted t s f fs rs k) (ground arith))
  | inr e ↦ rw e (rw e (rw (read-quoted t s f fs rs k)))
]

at_stop :
    (s : Text) → IsStop s → (read at_field s ≡ read plain s) × (read after_quote s ≡ read plain s)
unfolding read read_char read_end is_plain
at_stop s (inl e) = rw e (refl, refl)
at_stop s (inr (u, inl e)) = rw e (refl, refl)
at_stop s (inr (u, inr e)) = rw e (refl, refl)

is_plain-special : (c : ℕ) → is_special c ≡ false → is_plain c ≡ true
unfolding is_special is_plain
is_plain-special c k = rw k

-- A field that is not in quotes is read alike from its start on.
read-at_field :
    (t s : Text)
    → IsStop s
    → any is_special t ≡ false
    → read at_field (t ++ s) ≡ read plain (t ++ s)
unfolding read read_char any
read-at_field [] s stop h = (at_stop s stop).0
read-at_field (c ∷ t) s stop h = rw (is_plain-special c (ground arith)) refl

read-quote :
    (s : Text) (rs : List (List Text))
    → read quoted s ≡ some rs
    → read at_field (quote ∷ s) ≡ some rs
unfolding read read_char is_plain act
read-quote s rs k = rw k

read-comma :
    (s : Text) (fs : List Text) (rs : List (List Text))
    → read at_field s ≡ some (fs ∷ rs)
    → read plain (44 ∷ s) ≡ some (([] ∷ fs) ∷ rs)
unfolding read read_char is_plain ends_field act
read-comma s fs rs k = rw k

read-crlf :
    (s : Text) (rs : List (List Text))
    → read at_field s ≡ some rs
    → read plain (13 ∷ 10 ∷ s) ≡ some (([] ∷ []) ∷ rs)
unfolding read read_char is_plain ends_field act
read-crlf s rs k = rw k

-- A cell, whatever it holds.
read-cell :
    (t s : Text) (fs : List Text) (rs : List (List Text))
    → IsStop s
    → read plain s ≡ some (([] ∷ fs) ∷ rs)
    → read at_field (quoted_if_special t ++ s) ≡ some ((t ∷ fs) ∷ rs)
unfolding quoted_if_special
read-cell t s fs rs stop k = elim (Bool-cases (any is_special t)) [
  | inl e ↦ rw e (
      rw (append_assoc (double_quotes t) (quote ∷ []) s)
        (read-quote _ _ (read-quoted t s [] fs rs ((at_stop s stop).1 ∙ k) ∙ rw (append-nil t))))
  | inr e ↦ rw e (read-at_field t s stop e ∙ rw (read-plain t s [] fs rs e k) (rw (append-nil t)))
]

-- The cells of a record, before the end or the end of the record.
read-row :
    (t : Text) (ts : List Text) (s : Text) (rs : List (List Text))
    → IsStop s
    → read plain s ≡ some (([] ∷ []) ∷ rs)
    → read at_field (join comma (map quoted_if_special (t ∷ ts)) ++ s) ≡ some ((t ∷ ts) ∷ rs)
unfolding join
read-row t [] s rs stop k = read-cell t s [] rs stop k
read-row t (u ∷ ts) s rs stop k =
    rw (append_assoc (quoted_if_special t) (44 ∷ join comma (map quoted_if_special (u ∷ ts))) s) (
      read-cell t (44 ∷ join comma (map quoted_if_special (u ∷ ts)) ++ s) (u ∷ ts) rs
        (inr (_, inl refl)) (read-comma _ (u ∷ ts) rs (read-row u ts s rs stop k)))

-- What each row stands for: the text of each cell, made safe.
abbrev pub shown_row : List CsvScalar → List Text
shown_row = map (λ (v : CsvScalar). neutralize_csv_injection (string v))

abbrev pub IsCons {ℓ} : {A : Type ℓ} → List A → Type 0
IsCons [] = ⊥
IsCons (x ∷ xs) = Unit

map_quoted :
    (row : List CsvScalar) → map escape_csv_cell row ≡ map quoted_if_special (shown_row row)
unfolding escape_csv_cell
map_quoted [] = refl
map_quoted (v ∷ row) = rw (map_quoted row)

read-shown_row :
    (row : List CsvScalar) (s : Text) (rs : List (List Text))
    → IsCons row
    → IsStop s
    → read plain s ≡ some (([] ∷ []) ∷ rs)
    → read at_field (serialize_csv_row row ++ s) ≡ some (shown_row row ∷ rs)
unfolding serialize_csv_row
read-shown_row [] s rs c stop k = absurd c
read-shown_row (v ∷ row) s rs c stop k =
    subst (λ cells. read at_field (join comma cells ++ s) ≡ some (shown_row (v ∷ row) ∷ rs))
      (sym (map_quoted (v ∷ row)))
      (read-row (neutralize_csv_injection (string v)) (shown_row row) s rs stop k)

read_rows :
    (row : List CsvScalar) (rows : List (List CsvScalar))
    → IsCons row
    → All IsCons rows
    → read at_field (join crlf (map serialize_csv_row (row ∷ rows)))
      ≡ some (map shown_row (row ∷ rows))
unfolding join
read_rows row [] c cs =
    rw (sym (append-nil (serialize_csv_row row)))
      (read-shown_row row [] [] c (inl refl) (unfold read read_end in refl))
read_rows row (next ∷ rows) c (d, cs) =
    read-shown_row row (13 ∷ 10 ∷ join crlf (map serialize_csv_row (next ∷ rows)))
      (map shown_row (next ∷ rows)) c (inr (_, inr refl)) (read-crlf _ _ (read_rows next rows d cs))

-- A strict reader of RFC 4180 reads the export of rows that each have a cell as those rows: no
-- cell's text can end its cell or its row, and a cell that is read is the text of its value, made safe
-- against formulas.
pub read-serialize_csv :
    (rows : List (List CsvScalar))
    → IsCons rows
    → All IsCons rows
    → read at_field (serialize_csv rows) ≡ some (map shown_row rows)
unfolding serialize_csv
read-serialize_csv [] c cs = absurd c
read-serialize_csv (row ∷ rows) c (d, cs) = read_rows row rows d cs
