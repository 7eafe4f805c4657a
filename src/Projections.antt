-- ===== src/Projections.antt =====
-- server/services/projections.ts: the summary of a vendor, by itself and in the list. The tables are those
-- of one organization, by which each statement selects. A date is the number of its day and a time that
-- of its millisecond, both from the same day on.
pub mod Reference
pub mod Listed
pub mod Aggregates
pub mod Agree
mod Examples
use opencoi.Base.{
  ℕ, ◌+◌, ◌/◌, Bool, true, false, not, ◌&&◌, ◌||◌, Option, none, some, List, [], ◌∷◌, leb, Text,
  text_eq, filter, any, length, compare, Ordering, head?,
}
use opencoi.Base.Sort.{sort, or_else, compare_texts}

pub data CertificateConfirmation : Type 0 where
  draft confirmed superseded rejected : CertificateConfirmation

pub data ComplianceStatus : Type 0 where
  pending_review compliant non_compliant exception expired : ComplianceStatus

-- A certificate with the time at which its document was uploaded.
pub record CertificateRow : Type 0 where
  pub id : Text
  pub vendor_id : Text
  pub confirmation_status : CertificateConfirmation
  pub compliance_status : ComplianceStatus
  pub earliest_effective_date : Option ℕ
  pub earliest_expiration_date : Option ℕ
  pub updated_at : ℕ
  pub uploaded_at : ℕ

pub record PolicyRow : Type 0 where
  pub certificate_id : Text
  pub effective_date : Option ℕ
  pub expiration_date : Option ℕ

pub data EvaluationStatus : Type 0 where
  pass fail unknown_finding not_applicable : EvaluationStatus

pub record FindingRow : Type 0 where
  pub id : Text
  pub certificate_id : Text
  pub evaluation_status : EvaluationStatus
  pub is_open : Bool

pub record ExceptionRow : Type 0 where
  pub finding_id : Text
  pub is_approved : Bool
  pub expires_at : Option ℕ

-- An active requirement of a vendor type, with the defaults of its configuration.
pub record RequirementRow : Type 0 where
  pub vendor_type_id : Text
  pub required : Bool
  pub expiration_warning_days : ℕ

pub record VendorRow : Type 0 where
  pub id : Text
  pub legal_name : Text
  pub vendor_type_id : Text
  pub is_active : Bool
  pub updated_at : ℕ

pub record Tables : Type 0 where
  pub vendors : List VendorRow
  pub certificates : List CertificateRow
  pub policies : List PolicyRow
  pub findings : List FindingRow
  pub exceptions : List ExceptionRow
  pub requirements : List RequirementRow

pub data CheckStatus : Type 0 where
  meets deficient needs_review approved_exception not_submitted : CheckStatus

pub data LifecycleStatus : Type 0 where
  current expiring past future unknown : LifecycleStatus

-- The fields that are computed.
pub record VendorSummary : Type 0 where
  pub id : Text
  pub status : CheckStatus
  pub lifecycle_status : LifecycleStatus
  pub next_expiration : Option ℕ
  pub reminder_expiration : Option ℕ
  pub expiration_warning_days : ℕ
  pub reminder_eligible : Bool
  pub open_findings : ℕ
  pub updated_at : ℕ

abbrev pub is_rejected : CertificateConfirmation → Bool
is_rejected rejected = true
is_rejected _ = false

abbrev pub is_confirmed_status : CertificateConfirmation → Bool
is_confirmed_status confirmed = true
is_confirmed_status _ = false

abbrev pub is_draft : CertificateConfirmation → Bool
is_draft draft = true
is_draft _ = false

abbrev pub is_pending_review : ComplianceStatus → Bool
is_pending_review pending_review = true
is_pending_review _ = false

-- `confirmation_status = 'draft' OR compliance_status = 'pending_review'`
unfoldable pub awaits_review : CertificateRow → Bool
awaits_review c = is_draft c.confirmation_status || is_pending_review c.compliance_status

-- `EXISTS` an approved exception of a finding that has not expired.
abbrev pub expires_from : Option ℕ → ℕ → Bool
expires_from none at = true
expires_from (some t) at = leb at t

abbrev pub is_active_exception : ℕ → ExceptionRow → Bool
is_active_exception at e = e.is_approved && expires_from e.expires_at at

unfoldable pub is_excepted : ℕ → List ExceptionRow → FindingRow → Bool
is_excepted at exceptions f =
    any (λ (e : ExceptionRow). text_eq e.finding_id f.id && is_active_exception at e) exceptions

abbrev pub is_failure : EvaluationStatus → Bool
is_failure fail = true
is_failure _ = false

-- `['FAIL', 'UNKNOWN']`
abbrev pub is_shortfall : EvaluationStatus → Bool
is_shortfall fail = true
is_shortfall unknown_finding = true
is_shortfall _ = false

abbrev pub of_certificate : Text → FindingRow → Bool
of_certificate certificate_id f = text_eq f.certificate_id certificate_id

-- `uploaded_at DESC, id DESC`
unfoldable pub compare_recent : CertificateRow → CertificateRow → Ordering
compare_recent l r = or_else (compare r.uploaded_at l.uploaded_at) (compare_texts r.id l.id)

unfoldable pub latest_certificate : Text → List CertificateRow → Option CertificateRow
latest_certificate vendor_id certificates = head? (
    sort compare_recent (
      filter
        (λ (c : CertificateRow).
          text_eq c.vendor_id vendor_id && not (is_rejected c.confirmation_status))
        certificates))

unfoldable pub latest_confirmed_certificate : Text → List CertificateRow → Option CertificateRow
latest_confirmed_certificate vendor_id certificates = head? (
    sort compare_recent (
      filter
        (λ (c : CertificateRow).
          text_eq c.vendor_id vendor_id && is_confirmed_status c.confirmation_status)
        certificates))

-- `SUM` over a list.
abbrev pub sum_of {ℓ} : {A : Type ℓ} → (A → ℕ) → List A → ℕ
sum_of f [] = 0
sum_of f (x ∷ xs) = f x + sum_of f xs

-- `COUNT` of the active exceptions joined with the findings of a certificate.
unfoldable pub active_exception_count : Text → ℕ → Tables → ℕ
active_exception_count certificate_id at db =
    sum_of
      (λ (e : ExceptionRow). length (
        filter (λ (f : FindingRow). text_eq f.id e.finding_id && of_certificate certificate_id f)
          db.findings))
      (filter (is_active_exception at) db.exceptions)

-- A day has 86,400,000 milliseconds.
abbrev pub day_of : ℕ → ℕ
day_of at = at / 86400000

-- The dates of policies that are not `NULL`.
abbrev pub dates_of : (PolicyRow → Option ℕ) → List PolicyRow → List ℕ
dates_of column [] = []
dates_of column (p ∷ ps) = elim (column p) [
  | none ↦ dates_of column ps
  | some d ↦ d ∷ dates_of column ps
]

abbrev pub policies_of : Text → List PolicyRow → List PolicyRow
policies_of certificate_id policies =
    filter (λ (p : PolicyRow). text_eq p.certificate_id certificate_id) policies
