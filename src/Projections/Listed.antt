-- ===== src/Projections/Listed.antt =====
-- server/services/projections.ts: `listVendorSummaryViews`, whose statement aggregates for all vendors at
-- once, and what is made of its rows.
use opencoi.Base.{
  ℕ, ◌+◌, Bool, true, not, ◌&&◌, Option, none, some, List, [], ◌∷◌, leb, ltb, ◌==◌, if◌then◌else◌,
  Text, text_eq, filter, Ordering, is_some, map,
}
use opencoi.Base.Sort.{sort, or_else, compare_texts}
use opencoi.Projections.{
  CertificateRow, PolicyRow, FindingRow, RequirementRow, VendorRow, Tables, VendorSummary,
  CheckStatus, needs_review, approved_exception, deficient, not_submitted, LifecycleStatus, current,
  expiring, past, future, unknown, awaits_review, is_excepted, is_failure, is_shortfall,
  of_certificate, latest_certificate, latest_confirmed_certificate, active_exception_count, day_of,
  policies_of,
}
use opencoi.Projections.Reference.{updated_at_of, decided, or_date, is_later}

abbrev pub lesser : Option ℕ → Option ℕ → Option ℕ
lesser none m = m
lesser (some n) none = some n
lesser (some n) (some m) = if ltb m n then some m else some n

abbrev pub greater : ℕ → Option ℕ → Option ℕ
greater n none = some n
greater n (some m) = if ltb m n then some n else some m

-- `min(column)` of a group: `NULL` is passed over.
abbrev pub sql_min : (PolicyRow → Option ℕ) → List PolicyRow → Option ℕ
sql_min column [] = none
sql_min column (p ∷ ps) = lesser (column p) (sql_min column ps)

-- `max(CASE WHEN required THEN days ELSE 0 END)` of a group, `NULL` of an empty one.
abbrev pub sql_max_days : List RequirementRow → Option ℕ
sql_max_days [] = none
sql_max_days (r ∷ rs) =
    greater (if r.required then r.expiration_warning_days else 0) (sql_max_days rs)

-- A row of the statement.
pub record VendorSummaryAggregateRow : Type 0 where
  pub vendor : VendorRow
  pub certificate : Option CertificateRow
  pub certificate_effective_date : Option ℕ
  pub certificate_expiration_date : Option ℕ
  pub reminder_expiration_date : Option ℕ
  pub open_findings : ℕ
  pub active_exceptions : ℕ
  pub unexcepted_failures : ℕ
  pub expiration_warning_days : ℕ

-- `sum(CASE WHEN ... THEN 1 ELSE 0 END)` over the findings of a certificate, 0 without a group.
abbrev pub sum_case : (FindingRow → Bool) → List FindingRow → ℕ
sum_case test [] = 0
sum_case test (f ∷ fs) = (if test f then 1 else 0) + sum_case test fs

-- `coalesce(min(...), the date of the certificate)`, `NULL` without a certificate.
abbrev pub joined_date :
    (PolicyRow → Option ℕ)
    → (CertificateRow → Option ℕ)
    → Option CertificateRow
    → List PolicyRow
    → Option ℕ
joined_date column own none policies = none
joined_date column own (some c) policies =
    or_date (sql_min column (policies_of c.id policies)) (own c)

-- A count of the certificate, 0 without one.
abbrev pub joined_count : (Text → ℕ) → Option CertificateRow → ℕ
joined_count count none = 0
joined_count count (some c) = count c.id

abbrev pub coalesce : Option ℕ → ℕ → ℕ
coalesce none d = d
coalesce (some n) d = n

unfoldable pub aggregate_row : ℕ → Tables → VendorRow → VendorSummaryAggregateRow
aggregate_row at db v =
    let c = latest_certificate v.id db.certificates in
    record {
      vendor = v;
      certificate = c;
      certificate_effective_date =
          joined_date (λ (p : PolicyRow). p.effective_date)
            (λ (c : CertificateRow). c.earliest_effective_date) c db.policies;
      certificate_expiration_date =
          joined_date (λ (p : PolicyRow). p.expiration_date)
            (λ (c : CertificateRow). c.earliest_expiration_date) c db.policies;
      reminder_expiration_date =
          joined_date (λ (p : PolicyRow). p.expiration_date)
            (λ (c : CertificateRow). c.earliest_expiration_date)
            (latest_confirmed_certificate v.id db.certificates) db.policies;
      open_findings =
          joined_count
            (λ id.
              sum_case (λ (f : FindingRow). f.is_open && is_shortfall f.evaluation_status)
                (filter (of_certificate id) db.findings))
            c;
      active_exceptions = joined_count (λ id. active_exception_count id at db) c;
      unexcepted_failures =
          joined_count
            (λ id.
              sum_case
                (λ (f : FindingRow).
                  f.is_open
                  && is_failure f.evaluation_status
                  && not (is_excepted at db.exceptions f))
                (filter (of_certificate id) db.findings))
            c;
      expiration_warning_days =
          coalesce
            (sql_max_days (
              filter (λ (r : RequirementRow). text_eq r.vendor_type_id v.vendor_type_id)
                db.requirements))
            30;
    }

abbrev pub check_of_certificate : VendorSummaryAggregateRow → Option CertificateRow → CheckStatus
check_of_certificate row none = not_submitted
check_of_certificate row (some c) =
    if awaits_review c then needs_review else elim (decided c.compliance_status) [
      | some status ↦ status
      | none ↦
          if ltb 0 row.active_exceptions && row.unexcepted_failures == 0
          then approved_exception
          else deficient
    ]

unfoldable pub aggregate_check_status : VendorSummaryAggregateRow → CheckStatus
aggregate_check_status row = check_of_certificate row row.certificate

abbrev pub lifecycle_of_dates : Option ℕ → Option ℕ → ℕ → ℕ → LifecycleStatus
lifecycle_of_dates effective none warning_days today = unknown
lifecycle_of_dates effective (some expiration) warning_days today =
    if is_later effective today
    then future
    else if ltb expiration today
    then past
    else if leb expiration (today + warning_days)
    then expiring
    else current

unfoldable pub aggregate_lifecycle : VendorSummaryAggregateRow → ℕ → LifecycleStatus
aggregate_lifecycle row today =
    if is_some row.certificate
    then lifecycle_of_dates row.certificate_effective_date row.certificate_expiration_date
        row.expiration_warning_days today
    else unknown

unfoldable pub summary_of_row : ℕ → VendorSummaryAggregateRow → VendorSummary
summary_of_row today row = record {
  id = row.vendor.id;
  status = aggregate_check_status row;
  lifecycle_status = aggregate_lifecycle row today;
  next_expiration = row.certificate_expiration_date;
  reminder_expiration = row.reminder_expiration_date;
  expiration_warning_days = row.expiration_warning_days;
  reminder_eligible = row.vendor.is_active && is_some row.reminder_expiration_date;
  open_findings = row.open_findings;
  updated_at = updated_at_of row.certificate row.vendor;
}

-- The filters: a vendor type, the search, a status and a lifecycle, each if it is asked for.
pub record VendorFilters : Type 0 where
  pub type : Option Text
  pub search : VendorRow → Bool
  pub check : CheckStatus → Bool
  pub document : LifecycleStatus → Bool

abbrev pub of_type : Option Text → VendorRow → Bool
of_type none v = true
of_type (some type) v = text_eq v.vendor_type_id type

-- `ORDER BY legal_name COLLATE NOCASE, id`, names by a comparison that is a parameter.
unfoldable pub list_vendor_summary_views :
    (Text → Text → Ordering) → VendorFilters → ℕ → Tables → List VendorSummary
list_vendor_summary_views nocase filters now db =
    let vendors =
      sort
        (λ (l : VendorRow) (r : VendorRow).
          or_else (nocase l.legal_name r.legal_name) (compare_texts l.id r.id))
        (filter (λ (v : VendorRow). of_type filters.type v && filters.search v) db.vendors) in
    filter (λ (s : VendorSummary). filters.check s.status && filters.document s.lifecycle_status)
      (map (λ v. summary_of_row (day_of now) (aggregate_row now db v)) vendors)
