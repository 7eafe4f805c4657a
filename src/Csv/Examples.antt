-- ===== src/Csv/Examples.antt =====
-- An export with values that a spreadsheet or a reader could take for something else.
use opencoi.Base.{
  true, ◌≡◌, All, refl, none, some, List, [], ◌∷◌, map, codes, any, trim_start, is_space,
}
use opencoi.Domain.{document_compliant, pass}
use opencoi.Csv.{
  CsvScalar, text, number, boolean, missing, ComplianceStatusExportRow, neutralize_csv_injection,
  serialize_csv, serialize_csv_row, escape_csv_cell, quoted_if_special, double_quotes, is_special,
  join, string, is_dangerous, starts_with, build_compliance_status_csv,
}
use opencoi.Csv.Reader.{read, at_field}
use opencoi.Csv.RoundTrip.{shown_row, read-serialize_csv}
use opencoi.Csv.Safe.{IsInert, read-serialize_csv-IsInert}
use opencoi.Csv.Status.{titles, safe_values, read-build_compliance_status_csv}

abbrev cells : List (List CsvScalar)
cells =
    (text (codes "=1+1") ∷ text (codes "a,\"b\"") ∷ [])
    ∷ (number (codes "-2") ∷ missing ∷ [])
    ∷ (boolean true ∷ [])
    ∷ []

serialized : serialize_csv cells ≡ codes "'=1+1,\"a,\"\"b\"\"\"\r\n'-2,\r\ntrue"
unfolding serialize_csv serialize_csv_row escape_csv_cell quoted_if_special double_quotes is_special
    join string neutralize_csv_injection is_dangerous starts_with trim_start is_space any
serialized = refl

read-serialize_csv_example : read at_field (serialize_csv cells) ≡ some (map shown_row cells)
read-serialize_csv_example = read-serialize_csv cells tt (tt, (tt, (tt, tt)))

read-serialize_csv-IsInert_example : All (All IsInert) (map shown_row cells)
read-serialize_csv-IsInert_example =
    read-serialize_csv-IsInert cells (map shown_row cells) tt (tt, (tt, (tt, tt)))
      read-serialize_csv_example

abbrev row : ComplianceStatusExportRow
row = record {
  vendor_id = codes "v1";
  vendor_name = codes "@Acme, Inc.";
  vendor_type = codes "contractor";
  document_id = codes "d1";
  evaluation_date = codes "2026-12-02";
  document_label = document_compliant;
  finding_status = some pass;
  deficiency_code = none;
  deficiency = none;
  expiration_date = none;
}

read-build_compliance_status_csv_example :
    read at_field (build_compliance_status_csv (row ∷ [])) ≡ some (titles ∷ safe_values row ∷ [])
read-build_compliance_status_csv_example = read-build_compliance_status_csv (row ∷ [])
