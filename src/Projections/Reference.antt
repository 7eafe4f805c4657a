-- ===== src/Projections/Reference.antt =====
-- server/services/projections.ts: `vendorSummaryView`, the summary of one vendor.
use opencoi.Base.{
  ℕ, ◌+◌, Bool, false, not, ◌&&◌, Option, none, some, List, [], ◌∷◌, leb, ltb, ◌==◌, if◌then◌else◌,
  Text, text_eq, filter, length, compare, head?, is_some, map,
}
use opencoi.Base.Sort.{sort}
use opencoi.Projections.{
  CertificateRow, PolicyRow, FindingRow, RequirementRow, VendorRow, Tables, VendorSummary,
  ComplianceStatus, compliant, exception, CheckStatus, meets, deficient, needs_review,
  approved_exception, not_submitted, LifecycleStatus, current, expiring, past, future, unknown,
  awaits_review, is_excepted, is_failure, is_shortfall, of_certificate, latest_certificate,
  latest_confirmed_certificate, active_exception_count, day_of, dates_of, policies_of,
}

-- `Math.max` of some numbers
abbrev pub max_of : List ℕ → ℕ
max_of [] = 0
max_of (n ∷ ns) = let m = max_of ns in if ltb m n then n else m

abbrev pub days_of : List RequirementRow → List ℕ
days_of requirements =
    map (λ (r : RequirementRow). r.expiration_warning_days)
      (filter (λ (r : RequirementRow). r.required) requirements)

abbrev pub requirements_of : Text → List RequirementRow → List RequirementRow
requirements_of vendor_type_id requirements =
    filter (λ (r : RequirementRow). text_eq r.vendor_type_id vendor_type_id) requirements

unfoldable pub expiration_warning_days_for : Text → List RequirementRow → ℕ
expiration_warning_days_for vendor_type_id requirements =
    let days = days_of (requirements_of vendor_type_id requirements) in
    if length days == 0 then 30 else max_of days

-- `.sort()[0]` of the dates, or the one of the certificate.
abbrev pub or_date : Option ℕ → Option ℕ → Option ℕ
or_date none d = d
or_date (some d) e = some d

abbrev pub first_date : (PolicyRow → Option ℕ) → List PolicyRow → Option ℕ
first_date column policies = head? (sort compare (dates_of column policies))

abbrev pub expiration_of : CertificateRow → List PolicyRow → Option ℕ
expiration_of c policies =
    or_date (first_date (λ (p : PolicyRow). p.expiration_date) policies) c.earliest_expiration_date

-- A first date that is there and after today.
abbrev pub is_later : Option ℕ → ℕ → Bool
is_later none today = false
is_later (some d) today = ltb today d

abbrev pub lifecycle_at : Option ℕ → Option ℕ → ℕ → ℕ → LifecycleStatus
lifecycle_at effective none today warning_days = unknown
lifecycle_at effective (some expiration) today warning_days =
    if is_later effective today
    then future
    else if ltb expiration today
    then past
    else if leb expiration (today + warning_days)
    then expiring
    else current

unfoldable pub lifecycle_for : Option CertificateRow → List PolicyRow → ℕ → ℕ → LifecycleStatus
lifecycle_for none policies today warning_days = unknown
lifecycle_for (some c) policies today warning_days =
    lifecycle_at (first_date (λ (p : PolicyRow). p.effective_date) policies)
      (expiration_of c policies) today warning_days

-- `COUNT` of the open failures without an active exception.
unfoldable pub unexcepted_failure_count : Text → ℕ → Tables → ℕ
unexcepted_failure_count certificate_id at db = length (
    filter
      (λ (f : FindingRow).
        of_certificate certificate_id f
        && is_failure f.evaluation_status
        && f.is_open
        && not (is_excepted at db.exceptions f))
      db.findings)

-- What the compliance status says by itself.
abbrev pub decided : ComplianceStatus → Option CheckStatus
decided compliant = some meets
decided exception = some approved_exception
decided _ = none

unfoldable pub check_for : Option CertificateRow → ℕ → Tables → CheckStatus
check_for none at db = not_submitted
check_for (some c) at db =
    if awaits_review c then needs_review else elim (decided c.compliance_status) [
      | some status ↦ status
      | none ↦
          if ltb 0 (active_exception_count c.id at db) && unexcepted_failure_count c.id at db == 0
          then approved_exception
          else deficient
    ]

abbrev pub expiration_of_latest : Option CertificateRow → Tables → Option ℕ
expiration_of_latest none db = none
expiration_of_latest (some c) db = expiration_of c (policies_of c.id db.policies)

abbrev pub policies_of_latest : Option CertificateRow → Tables → List PolicyRow
policies_of_latest none db = []
policies_of_latest (some c) db = policies_of c.id db.policies

-- `findings.filter(...).length`
abbrev pub open_finding_count : Option CertificateRow → Tables → ℕ
open_finding_count none db = 0
open_finding_count (some c) db = length (
    filter (λ (f : FindingRow). f.is_open && is_shortfall f.evaluation_status)
      (filter (of_certificate c.id) db.findings))

abbrev pub updated_at_of : Option CertificateRow → VendorRow → ℕ
updated_at_of none v = v.updated_at
updated_at_of (some c) v = c.updated_at

unfoldable pub vendor_summary_view : VendorRow → ℕ → Tables → VendorSummary
vendor_summary_view v now db =
    let certificate = latest_certificate v.id db.certificates in
    let reminder_certificate = latest_confirmed_certificate v.id db.certificates in
    let days = expiration_warning_days_for v.vendor_type_id db.requirements in
    let reminder_expiration = expiration_of_latest reminder_certificate db in
    record {
      id = v.id;
      status = check_for certificate now db;
      lifecycle_status =
          lifecycle_for certificate (policies_of_latest certificate db) (day_of now) days;
      next_expiration = expiration_of_latest certificate db;
      reminder_expiration = reminder_expiration;
      expiration_warning_days = days;
      reminder_eligible = v.is_active && is_some reminder_expiration;
      open_findings = open_finding_count certificate db;
      updated_at = updated_at_of certificate v;
    }
