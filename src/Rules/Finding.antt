-- ===== src/Rules/Finding.antt =====
-- shared/rules.ts: what the checks share: `finding`, `isConfirmed`, the ids.
use opencoi.Base.{ℕ, Bool, false, ◌&&◌, Option, none, some, List, ◌∷◌, ◌++◌, Text, codes}
use opencoi.Domain.{
  FindingStatus, fail, unknown, LimitType, each_occurrence, damage_to_rented_premises,
  medical_expense, personal_advertising_injury, general_aggregate,
  products_completed_operations_aggregate, combined_single_limit, bodily_injury_per_person,
  bodily_injury_per_accident, property_damage_per_accident, each_accident, disease_each_employee,
  disease_policy_limit, each_claim, aggregate, confirmed, unconfirmed, is_confirmed_status,
  EvidenceField, CoiDocumentFacts, FindingCategory, FindingCode, RequiredPolicyField, insurer_name,
  policy_number, Expected, Observed, ComplianceFinding,
}

-- The `:` of the ids.
abbrev pub colon : ℕ
colon = 58

unfoldable pub limit_type_text : LimitType → Text
limit_type_text each_occurrence = codes "EACH_OCCURRENCE"
limit_type_text damage_to_rented_premises = codes "DAMAGE_TO_RENTED_PREMISES"
limit_type_text medical_expense = codes "MEDICAL_EXPENSE"
limit_type_text personal_advertising_injury = codes "PERSONAL_ADVERTISING_INJURY"
limit_type_text general_aggregate = codes "GENERAL_AGGREGATE"
limit_type_text products_completed_operations_aggregate =
    codes "PRODUCTS_COMPLETED_OPERATIONS_AGGREGATE"
limit_type_text combined_single_limit = codes "COMBINED_SINGLE_LIMIT"
limit_type_text bodily_injury_per_person = codes "BODILY_INJURY_PER_PERSON"
limit_type_text bodily_injury_per_accident = codes "BODILY_INJURY_PER_ACCIDENT"
limit_type_text property_damage_per_accident = codes "PROPERTY_DAMAGE_PER_ACCIDENT"
limit_type_text each_accident = codes "EACH_ACCIDENT"
limit_type_text disease_each_employee = codes "DISEASE_EACH_EMPLOYEE"
limit_type_text disease_policy_limit = codes "DISEASE_POLICY_LIMIT"
limit_type_text each_claim = codes "EACH_CLAIM"
limit_type_text aggregate = codes "AGGREGATE"

unfoldable pub required_policy_field_text : RequiredPolicyField → Text
required_policy_field_text insurer_name = codes "INSURER_NAME"
required_policy_field_text policy_number = codes "POLICY_NUMBER"

-- `${requirementId}:${suffix}`
unfoldable pub finding_id : Text → Text → Text
finding_id requirement_id suffix = requirement_id ++ (colon ∷ suffix)

-- `coverage`, `coverage:${policy.id}`, `field:${requiredField}:${policy.id}` and so on.
unfoldable pub coverage_suffix : Text
coverage_suffix = codes "coverage"

-- `profile:${context.vendorTypeId}`
unfoldable pub profile_id : Text → Text
profile_id vendor_type_id = codes "profile:" ++ vendor_type_id

unfoldable pub coverage_policy_suffix : Text → Text
coverage_policy_suffix policy = codes "coverage:" ++ policy

unfoldable pub field_suffix : RequiredPolicyField → Text → Text
field_suffix f policy = codes "field:" ++ (required_policy_field_text f ++ (colon ∷ policy))

unfoldable pub period_suffix : Text → Text
period_suffix policy = codes "period:" ++ policy

unfoldable pub limit_suffix : LimitType → Text → Text
limit_suffix t policy = codes "limit:" ++ (limit_type_text t ++ (colon ∷ policy))

unfoldable pub endorsement_suffix : Text → Text
endorsement_suffix endorsement = codes "endorsement:" ++ endorsement

abbrev pub finding :
    Text
    → Text
    → FindingCategory
    → FindingStatus
    → FindingCode
    → Expected
    → Option Observed
    → List Text
    → ComplianceFinding
finding requirement_id suffix category status code expected observed evidence_ids = record {
  id = finding_id requirement_id suffix;
  requirement_id = requirement_id;
  category = category;
  status = status;
  code = code;
  expected = expected;
  observed = observed;
  evidence_ids = evidence_ids;
}

-- `document.reviewStatus === "CONFIRMED" ? "FAIL" : "UNKNOWN"`, and the code that goes with it.
abbrev pub missing_status : CoiDocumentFacts → FindingStatus
missing_status document = elim document.review_status [ confirmed ↦ fail | unconfirmed ↦ unknown ]

abbrev pub code_by_status {ℓ} : {C : Type ℓ} → FindingStatus → C → C → C
code_by_status fail when_fail otherwise = when_fail
code_by_status _ when_fail otherwise = otherwise

abbrev pub is_confirmed {ℓ} : {T : Type ℓ} → CoiDocumentFacts → EvidenceField T → Bool
is_confirmed document f =
    is_confirmed_status document.review_status && is_confirmed_status f.confirmation

abbrev pub is_confirmed? {ℓ} : {T : Type ℓ} → CoiDocumentFacts → Option (EvidenceField T) → Bool
is_confirmed? document none = false
is_confirmed? document (some f) = is_confirmed document f
