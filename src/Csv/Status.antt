-- ===== src/Csv/Status.antt =====
-- shared/csv.ts: the compliance status export.
use Prim.Native.String.{String}
use opencoi.Domain.{
  DocumentComplianceLabel, document_compliant, document_non_compliant, document_review_required,
  document_not_applicable, FindingStatus, pass, fail, unknown, not_applicable,
}
use opencoi.Base.{
  codes, Option, none, ◌≡◌, refl, ◌∙◌, ap, some, List, [], ◌∷◌, map, All, Text, trim_start,
  is_space,
}
use opencoi.Csv.{
  text, string, neutralize_csv_injection, ComplianceStatusExportRow, compliance_cells,
  compliance_csv_headers, build_compliance_status_csv, label_text, optional_status, or_empty,
  is_dangerous, starts_with,
}
use opencoi.Csv.Reader.{read, at_field}
use opencoi.Csv.RoundTrip.{IsCons, shown_row, read-serialize_csv}

shown_texts : (ts : List Text) → shown_row (map text ts) ≡ map neutralize_csv_injection ts
unfolding string
shown_texts [] = refl
shown_texts (t ∷ ts) = ap (λ us. neutralize_csv_injection t ∷ us) (shown_texts ts)

-- A column of the export: its title and what it says of a row.
pub record Column : Type 0 where
  pub title : Text
  pub value : ComplianceStatusExportRow → Text

abbrev column : String → (ComplianceStatusExportRow → Text) → Column
column title value = record { title = codes title; value = value }

abbrev or_nothing : Option Text → Text
or_nothing t = elim t [ none ↦ [] | some s ↦ s ]

abbrev label_name : DocumentComplianceLabel → Text
label_name label = elim label [
  | document_compliant ↦ codes "DOCUMENT_COMPLIANT"
  | document_non_compliant ↦ codes "DOCUMENT_NON_COMPLIANT"
  | document_review_required ↦ codes "DOCUMENT_REVIEW_REQUIRED"
  | document_not_applicable ↦ codes "DOCUMENT_NOT_APPLICABLE"
]

abbrev status_name : Option FindingStatus → Text
status_name status = elim status [
  | none ↦ []
  | some s ↦ elim s [
    | pass ↦ codes "PASS"
    | fail ↦ codes "FAIL"
    | unknown ↦ codes "UNKNOWN"
    | not_applicable ↦ codes "NOT_APPLICABLE"
  ]
]

-- The ten columns, each title with the value under it.
abbrev pub columns : List Column
columns =
    column "Vendor ID" (λ row. row.vendor_id)
    ∷ column "Vendor name" (λ row. row.vendor_name)
    ∷ column "Vendor type" (λ row. row.vendor_type)
    ∷ column "Document ID" (λ row. row.document_id)
    ∷ column "Evaluation date" (λ row. row.evaluation_date)
    ∷ column "Document compliance" (λ row. label_name row.document_label)
    ∷ column "Finding status" (λ row. status_name row.finding_status)
    ∷ column "Deficiency code" (λ row. or_nothing row.deficiency_code)
    ∷ column "Deficiency" (λ row. or_nothing row.deficiency)
    ∷ column "Expiration date" (λ row. or_nothing row.expiration_date)
    ∷ []

abbrev pub titles : List Text
titles = map (λ (c : Column). c.title) columns

abbrev values : ComplianceStatusExportRow → List Text
values row = map (λ (c : Column). c.value row) columns

-- The values with an apostrophe where a formula would begin.
abbrev pub safe_values : ComplianceStatusExportRow → List Text
safe_values row = map neutralize_csv_injection (values row)

same_label : (label : DocumentComplianceLabel) → label_text label ≡ label_name label
same_label document_compliant = refl
same_label document_non_compliant = refl
same_label document_review_required = refl
same_label document_not_applicable = refl

same_status : (status : Option FindingStatus) → optional_status status ≡ status_name status
same_status none = refl
same_status (some pass) = refl
same_status (some fail) = refl
same_status (some unknown) = refl
same_status (some not_applicable) = refl

same_option : (t : Option Text) → or_empty t ≡ or_nothing t
same_option none = refl
same_option (some t) = refl

compliance_cells-values : (row : ComplianceStatusExportRow) → compliance_cells row ≡ values row
unfolding compliance_cells
compliance_cells-values row =
    rw
      (
        same_label row.document_label,
        same_status row.finding_status,
        same_option row.deficiency_code,
        same_option row.deficiency,
        same_option row.expiration_date,
      )
      refl

cons_eq : {x y : List Text} {xs ys : List (List Text)} → x ≡ y → xs ≡ ys → x ∷ xs ≡ y ∷ ys
cons_eq p q = cc

shown_rows :
    (rows : List ComplianceStatusExportRow)
    → map shown_row
        (map (λ (row : ComplianceStatusExportRow). map text (compliance_cells row)) rows)
      ≡ map safe_values rows
shown_rows [] = refl
shown_rows (row ∷ rows) =
    cons_eq
      (shown_texts (compliance_cells row)
        ∙ ap (map neutralize_csv_injection) (compliance_cells-values row))
      (shown_rows rows)

have_cells :
    (rows : List ComplianceStatusExportRow)
    → All IsCons (map (λ (row : ComplianceStatusExportRow). map text (compliance_cells row)) rows)
unfolding compliance_cells
have_cells [] = tt
have_cells (row ∷ rows) = (tt, have_cells rows)

headers_safe : shown_row (map text compliance_csv_headers) ≡ titles
unfolding neutralize_csv_injection string is_dangerous starts_with trim_start is_space
headers_safe = refl

-- A strict reader of RFC 4180 reads the compliance status export as its titles and, for each row in
-- its order, under each of the ten titles the value of the row that it names, made safe.
pub read-build_compliance_status_csv :
    (rows : List ComplianceStatusExportRow)
    → read at_field (build_compliance_status_csv rows) ≡ some (titles ∷ map safe_values rows)
unfolding build_compliance_status_csv
read-build_compliance_status_csv rows =
    read-serialize_csv _ tt (tt, have_cells rows) ∙ ap some (cons_eq headers_safe (shown_rows rows))
