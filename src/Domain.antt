-- ===== src/Domain.antt =====
-- shared/domain.ts: the facts of a certificate, findings, and the label of a document.
pub mod Label
use opencoi.Base.{ℕ, Bool, true, false, Option, List, if◌then◌else◌, Text, any}
use opencoi.Dates.{IsoDate}

pub data FindingStatus : Type 0 where
  pass fail unknown not_applicable : FindingStatus

pub data DocumentComplianceLabel : Type 0 where
  document_compliant document_non_compliant : DocumentComplianceLabel
  document_review_required document_not_applicable : DocumentComplianceLabel

pub data CoverageType : Type 0 where
  commercial_general_liability automobile_liability workers_compensation : CoverageType
  employers_liability umbrella_excess_liability professional_liability : CoverageType
  cyber_liability pollution_liability property other : CoverageType

unfoldable pub CoverageType-discrete : Discrete CoverageType
CoverageType-discrete = hlevel

pub data LimitType : Type 0 where
  each_occurrence damage_to_rented_premises medical_expense : LimitType
  personal_advertising_injury general_aggregate : LimitType
  products_completed_operations_aggregate combined_single_limit : LimitType
  bodily_injury_per_person bodily_injury_per_accident : LimitType
  property_damage_per_accident each_accident disease_each_employee : LimitType
  disease_policy_limit each_claim aggregate : LimitType

pub data EndorsementEvidenceLevel : Type 0 where
  none_shown mentioned scheduled attached human_verified : EndorsementEvidenceLevel

abbrev pub endorsement_evidence_rank : EndorsementEvidenceLevel → ℕ
endorsement_evidence_rank none_shown = 0
endorsement_evidence_rank mentioned = 1
endorsement_evidence_rank scheduled = 2
endorsement_evidence_rank attached = 3
endorsement_evidence_rank human_verified = 4

pub data ConfirmationStatus : Type 0 where
  unconfirmed confirmed : ConfirmationStatus

pub data EvidenceSource : Type 0 where
  ocr manual imported : EvidenceSource

-- Number.MAX_SAFE_INTEGER
abbrev pub max_safe_integer : ℕ
max_safe_integer = 9007199254740991

pub record EvidenceField {ℓ} (T : Type ℓ) : Type ℓ where
  pub value : T
  pub confirmation : ConfirmationStatus
  pub source : EvidenceSource
  pub confidence_bps : Option ℕ
  pub raw_text : Option Text
  pub page : Option ℕ

-- `limits` is a partial record: a limit type that is absent is `none`. Amounts are minor units.
pub record CoiPolicyFacts : Type 0 where
  pub id : Text
  pub coverage_type : EvidenceField CoverageType
  pub insurer_name : Option (EvidenceField Text)
  pub policy_number : Option (EvidenceField Text)
  pub effective_date : Option (EvidenceField IsoDate)
  pub expiration_date : Option (EvidenceField IsoDate)
  pub limits : LimitType → Option (EvidenceField ℕ)

pub record CoiEndorsementEvidence : Type 0 where
  pub id : Text
  pub form_code : Option (EvidenceField Text)
  pub name : Option (EvidenceField Text)
  pub evidence_level : EvidenceField EndorsementEvidenceLevel
  pub source_pages : Option (List ℕ)

pub record CoiDocumentFacts : Type 0 where
  pub id : Text
  pub review_status : ConfirmationStatus
  pub named_insured : Option (EvidenceField Text)
  pub certificate_holder : Option (EvidenceField Text)
  pub policies : List CoiPolicyFacts
  pub endorsements : List CoiEndorsementEvidence

pub data FindingCategory : Type 0 where
  rule_profile coverage policy_field policy_period limit endorsement : FindingCategory

-- The stable reason codes of shared/rules.ts.
pub data FindingCode : Type 0 where
  vendor_type_rules_not_found coverage_not_applicable : FindingCode
  required_coverage_missing coverage_review_required : FindingCode
  required_coverage_found coverage_type_unconfirmed : FindingCode
  required_policy_field_missing policy_field_review_required : FindingCode
  policy_field_unconfirmed required_policy_field_found : FindingCode
  policy_period_missing policy_period_review_required : FindingCode
  policy_period_unconfirmed policy_period_satisfies policy_period_deficient : FindingCode
  required_limit_missing limit_review_required limit_unconfirmed : FindingCode
  limit_satisfies limit_inadequate umbrella_evidence_unconfirmed : FindingCode
  stacked_limit_inadequate stacked_limit_overflow stacked_limit_satisfies : FindingCode
  endorsement_not_applicable endorsement_evidence_missing : FindingCode
  endorsement_review_required endorsement_evidence_unconfirmed : FindingCode
  endorsement_evidence_satisfies endorsement_evidence_inadequate : FindingCode

pub data RequiredPolicyField : Type 0 where
  insurer_name policy_number : RequiredPolicyField

-- The `expected` record of a finding, by the kind of check.
pub data Expected : Type 0 where
  vendor_type : Text → Expected
  coverage_type : CoverageType → Expected
  field : RequiredPolicyField → Expected
  period : IsoDate → IsoDate → ℕ → Expected
  minimum : LimitType → ℕ → Bool → Expected
  evidence : Option Text → Option Text → EndorsementEvidenceLevel → Expected

-- The `observed` record; an amount or a text that is not shown is `none`.
pub data Observed : Type 0 where
  coverage_seen : CoverageType → ConfirmationStatus → Observed
  field_seen : Option (Text × ConfirmationStatus) → Observed
  dates_seen : Option IsoDate → Option IsoDate → Observed
  value_seen : Option ℕ → Option ConfirmationStatus → Observed
  amounts : ℕ → Option ℕ → Option ℕ → Observed
  endorsement_seen : Option Text → Option Text → EndorsementEvidenceLevel → Observed

-- The title and the explanation, prose for the reader of a report, are left out.
pub record ComplianceFinding : Type 0 where
  pub id : Text
  pub requirement_id : Text
  pub category : FindingCategory
  pub status : FindingStatus
  pub code : FindingCode
  pub expected : Expected
  pub observed : Option Observed
  pub evidence_ids : List Text

pub data ExceptionStatus : Type 0 where
  pending approved rejected revoked : ExceptionStatus

pub record ComplianceException : Type 0 where
  pub id : Text
  pub finding_ids : List Text
  pub status : ExceptionStatus
  pub reason : Text
  pub requested_by : Text
  pub requested_on : IsoDate
  pub decided_by : Option Text
  pub decided_on : Option IsoDate
  pub expires_on : Option IsoDate

pub record DocumentComplianceEvaluation : Type 0 where
  pub document_id : Text
  pub ruleset_id : Text
  pub vendor_type_id : Text
  pub evaluation_date : IsoDate
  pub label : DocumentComplianceLabel
  pub findings : List ComplianceFinding
  pub exceptions : List ComplianceException

abbrev pub is_fail : FindingStatus → Bool
is_fail fail = true
is_fail _ = false

abbrev pub is_unknown : FindingStatus → Bool
is_unknown unknown = true
is_unknown _ = false

abbrev pub is_pass : FindingStatus → Bool
is_pass pass = true
is_pass _ = false

abbrev pub is_confirmed_status : ConfirmationStatus → Bool
is_confirmed_status confirmed = true
is_confirmed_status unconfirmed = false

unfoldable pub derive_document_compliance_label : List ComplianceFinding → DocumentComplianceLabel
derive_document_compliance_label findings =
    if any (λ (f : ComplianceFinding). is_fail f.status) findings
    then document_non_compliant
    else if any (λ (f : ComplianceFinding). is_unknown f.status) findings
    then document_review_required
    else if any (λ (f : ComplianceFinding). is_pass f.status) findings
    then document_compliant
    else document_not_applicable
