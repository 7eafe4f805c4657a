-- ===== src/Csv/Reader.antt =====
-- A strict reader of RFC 4180, which is what a consumer of the export of shared/csv.ts does: fields
-- are parted by commas and records by CR LF; a field in quotes has each quote of it doubled; a quote,
-- CR or LF elsewhere is an error.
use opencoi.Base.{
  Bool, not, Option, none, some, List, [], ◌∷◌, ◌==◌, if◌then◌else◌, Text, ℕ, ◌||◌, ◌>>=◌,
}
use opencoi.Csv.{quote}

pub data Mode : Type 0 where
  -- before a field, within one that has no quotes, within quotes, after a quote within quotes, and
  -- after the CR that ends a record
  at_field plain quoted after_quote after_cr : Mode

pub data Action : Type 0 where
  skip new_field new_record : Action
  push : ℕ → Action

-- What an action does with the records that were read after it.
unfoldable pub act : Action → List (List Text) → Option (List (List Text))
act skip records = some records
act new_field [] = none
act new_field (fields ∷ records) = some (([] ∷ fields) ∷ records)
act new_record records = some (([] ∷ []) ∷ records)
act (push c) [] = none
act (push c) ([] ∷ records) = none
act (push c) ((field ∷ fields) ∷ records) = some (((c ∷ field) ∷ fields) ∷ records)

-- A character that is neither a quote, a comma, CR nor LF, and one that ends a field.
unfoldable pub is_plain : ℕ → Bool
is_plain c = not (c == 34 || c == 44 || c == 13 || c == 10)

unfoldable pub ends_field : ℕ → Option (Mode × Action)
ends_field c =
    if c == 44 then some (at_field, new_field) else if c == 13 then some (after_cr, skip) else none

-- What the mode makes of a character.
unfoldable pub read_char : Mode → ℕ → Option (Mode × Action)
read_char at_field c =
    if is_plain c
    then some (plain, push c)
    else if c == quote
    then some (quoted, skip)
    else ends_field c
read_char plain c = if is_plain c then some (plain, push c) else ends_field c
read_char quoted c = if c == quote then some (after_quote, skip) else some (quoted, push c)
read_char after_quote c = if c == quote then some (quoted, push quote) else ends_field c
read_char after_cr c = if c == 10 then some (at_field, new_record) else none

unfoldable pub read_end : Mode → Option (List (List Text))
read_end quoted = none
read_end after_cr = none
read_end _ = some (([] ∷ []) ∷ [])

unfoldable pub read : Mode → Text → Option (List (List Text))
read mode [] = read_end mode
read mode (c ∷ s) = read_char mode c >>= λ (next, action). read next s >>= act action
