-- ===== src/Csv.antt =====
-- shared/csv.ts: the CSV export. A number's `String` is a parameter of the value: a cell holds the
-- text that it has.
pub mod Reader
pub mod Safe
pub mod Status
pub mod RoundTrip
mod Examples
use opencoi.Base.{
  Bool, true, false, ◌||◌, Option, none, some, List, [], ◌∷◌, ◌++◌, map, ◌==◌, any, if◌then◌else◌,
  Text, trim_start, head?, codes, ℕ,
}
use opencoi.Domain.{
  DocumentComplianceLabel, document_compliant, document_non_compliant, document_review_required,
  document_not_applicable, FindingStatus, pass, fail, unknown, not_applicable,
}

-- A scalar by its kind: text, a number with its `String`, a Boolean, or `null` and `undefined`.
pub data CsvScalar : Type 0 where
  text : Text → CsvScalar
  number : Text → CsvScalar
  boolean : Bool → CsvScalar
  missing : CsvScalar

unfoldable pub starts_with : ℕ → Text → Bool
starts_with c [] = false
starts_with c (d ∷ s) = d == c

-- tab, carriage return and line feed
abbrev pub starts_with_control : Text → Bool
starts_with_control value = starts_with 9 value || starts_with 13 value || starts_with 10 value

-- `=`, `+`, `-` and `@`
abbrev pub starts_with_formula : Text → Bool
starts_with_formula value =
    starts_with 61 value || starts_with 43 value || starts_with 45 value || starts_with 64 value

abbrev pub apostrophe : ℕ
apostrophe = 39

unfoldable pub is_dangerous : Text → Bool
is_dangerous value = starts_with_control value || starts_with_formula (trim_start value)

unfoldable pub neutralize_csv_injection : Text → Text
neutralize_csv_injection value =
    if starts_with apostrophe value
    then value
    else if is_dangerous value
    then apostrophe ∷ value
    else value

unfoldable pub string : CsvScalar → Text
string (text t) = t
string (number t) = t
string (boolean true) = codes "true"
string (boolean false) = codes "false"
string missing = []

abbrev pub quote : ℕ
quote = 34

-- /[",\r\n]/
unfoldable pub is_special : ℕ → Bool
is_special c = c == 34 || c == 44 || c == 13 || c == 10

-- `replaceAll('"', '""')`
unfoldable pub double_quotes : Text → Text
double_quotes [] = []
double_quotes (c ∷ s) =
    let rest = double_quotes s in if c == quote then quote ∷ quote ∷ rest else c ∷ rest

unfoldable pub quoted_if_special : Text → Text
quoted_if_special serialized =
    if any is_special serialized
    then quote ∷ (double_quotes serialized ++ (quote ∷ []))
    else serialized

unfoldable pub escape_csv_cell : CsvScalar → Text
escape_csv_cell value = quoted_if_special (neutralize_csv_injection (string value))

-- `join(separator)`
unfoldable pub join : Text → List Text → Text
join separator [] = []
join separator (t ∷ []) = t
join separator (t ∷ u ∷ ts) = t ++ (separator ++ join separator (u ∷ ts))

abbrev pub comma : Text
comma = 44 ∷ []

abbrev pub crlf : Text
crlf = 13 ∷ 10 ∷ []

unfoldable pub serialize_csv_row : List CsvScalar → Text
unfolding join
serialize_csv_row row = join comma (map escape_csv_cell row)

unfoldable pub serialize_csv : List (List CsvScalar) → Text
serialize_csv rows = join crlf (map serialize_csv_row rows)

pub record ComplianceStatusExportRow : Type 0 where
  pub vendor_id : Text
  pub vendor_name : Text
  pub vendor_type : Text
  pub document_id : Text
  pub evaluation_date : Text
  pub document_label : DocumentComplianceLabel
  pub finding_status : Option FindingStatus
  pub deficiency_code : Option Text
  pub deficiency : Option Text
  pub expiration_date : Option Text

-- The strings of the two unions of shared/domain.ts.
abbrev pub label_text : DocumentComplianceLabel → Text
label_text document_compliant = codes "DOCUMENT_COMPLIANT"
label_text document_non_compliant = codes "DOCUMENT_NON_COMPLIANT"
label_text document_review_required = codes "DOCUMENT_REVIEW_REQUIRED"
label_text document_not_applicable = codes "DOCUMENT_NOT_APPLICABLE"

abbrev pub status_text : FindingStatus → Text
status_text pass = codes "PASS"
status_text fail = codes "FAIL"
status_text unknown = codes "UNKNOWN"
status_text not_applicable = codes "NOT_APPLICABLE"

-- `value ?? ""`
abbrev pub or_empty : Option Text → Text
or_empty none = []
or_empty (some t) = t

abbrev pub optional_status : Option FindingStatus → Text
optional_status none = []
optional_status (some s) = status_text s

abbrev pub compliance_csv_headers : List Text
compliance_csv_headers =
    codes "Vendor ID"
    ∷ codes "Vendor name"
    ∷ codes "Vendor type"
    ∷ codes "Document ID"
    ∷ codes "Evaluation date"
    ∷ codes "Document compliance"
    ∷ codes "Finding status"
    ∷ codes "Deficiency code"
    ∷ codes "Deficiency"
    ∷ codes "Expiration date"
    ∷ []

unfoldable pub compliance_cells : ComplianceStatusExportRow → List Text
compliance_cells row =
    row.vendor_id
    ∷ row.vendor_name
    ∷ row.vendor_type
    ∷ row.document_id
    ∷ row.evaluation_date
    ∷ label_text row.document_label
    ∷ optional_status row.finding_status
    ∷ or_empty row.deficiency_code
    ∷ or_empty row.deficiency
    ∷ or_empty row.expiration_date
    ∷ []

unfoldable pub build_compliance_status_csv : List ComplianceStatusExportRow → Text
unfolding compliance_cells
build_compliance_status_csv rows = serialize_csv (
    map text compliance_csv_headers
    ∷ map (λ (row : ComplianceStatusExportRow). map text (compliance_cells row)) rows)
