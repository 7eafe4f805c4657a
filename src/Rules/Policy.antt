-- ===== src/Rules/Policy.antt =====
-- shared/rules.ts: `evaluatePolicy`, the checks of one policy against one coverage requirement.
use opencoi.Base.{
  not, Option, none, some, List, [], ◌∷◌, ◌++◌, map, if◌then◌else◌, ◌>>=◌, Text, traverse,
}
use opencoi.Dates.{IsoDate}
use opencoi.Domain.{
  FindingStatus, pass, unknown, EvidenceField, CoiPolicyFacts, CoiDocumentFacts, coverage,
  policy_field, FindingCode, required_coverage_found, coverage_type_unconfirmed,
  required_policy_field_missing, policy_field_review_required, policy_field_unconfirmed,
  required_policy_field_found, RequiredPolicyField, insurer_name, policy_number, coverage_type,
  field, coverage_seen, field_seen, ComplianceFinding, ConfirmationStatus,
}
use opencoi.Rules.Requirement.{LimitRequirement, CoverageRequirement, Collation}
use opencoi.Rules.Finding.{
  finding, coverage_policy_suffix, field_suffix, missing_status, code_by_status, is_confirmed,
}
use opencoi.Rules.Period.{evaluate_policy_period}
use opencoi.Rules.Limit.{evaluate_limit}

abbrev pub field_of : CoiPolicyFacts → RequiredPolicyField → Option (EvidenceField Text)
field_of policy insurer_name = policy.insurer_name
field_of policy policy_number = policy.policy_number

module _ (requirement : CoverageRequirement) (policy : CoiPolicyFacts)
    (document : CoiDocumentFacts) where
  unfoldable pub coverage_finding : ComplianceFinding
  coverage_finding =
      let coverage_confirmed = is_confirmed document policy.coverage_type in
      finding requirement.id (coverage_policy_suffix policy.id) coverage
        (if coverage_confirmed then pass else unknown)
        (if coverage_confirmed then required_coverage_found else coverage_type_unconfirmed)
        (coverage_type requirement.coverage_type)
        (some (coverage_seen policy.coverage_type.value policy.coverage_type.confirmation))
        (policy.id ∷ [])

  field_finding_of :
      RequiredPolicyField
      → FindingStatus
      → FindingCode
      → Option (Text × ConfirmationStatus)
      → ComplianceFinding
  field_finding_of required_field status code seen =
      finding requirement.id (field_suffix required_field policy.id) policy_field status code
        (field required_field) (some (field_seen seen)) (policy.id ∷ [])

  -- One round of the loop over the required fields.
  unfoldable pub field_finding : RequiredPolicyField → ComplianceFinding
  unfolding field_finding_of
  field_finding required_field =
      let status = missing_status document in
      elim (field_of policy required_field) [
        | none ↦
            field_finding_of required_field status
              (code_by_status status required_policy_field_missing policy_field_review_required)
              none
        | some f ↦
            let seen = some (f.value, f.confirmation) in
            if not (is_confirmed document f)
            then field_finding_of required_field unknown policy_field_unconfirmed seen
            else field_finding_of required_field pass required_policy_field_found seen
      ]

unfoldable pub evaluate_policy :
    Collation
    → CoverageRequirement
    → CoiPolicyFacts
    → CoiDocumentFacts
    → IsoDate
    → Option (List ComplianceFinding)
evaluate_policy collation requirement policy document evaluation_date = do
  period ← evaluate_policy_period requirement policy document evaluation_date
  limits ←
      traverse
        (λ (l : LimitRequirement).
          evaluate_limit collation requirement l policy document evaluation_date)
        requirement.minimum_limits
  some (
      coverage_finding requirement policy document
      ∷ (map (field_finding requirement policy document) requirement.required_policy_fields
          ++ (period ∷ limits)))
