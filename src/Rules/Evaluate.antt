-- ===== src/Rules/Evaluate.antt =====
-- shared/rules.ts: `evaluateCoverageRequirement` and `evaluateCompliance` from the parsed ruleset on.
use opencoi.Base.{
  Option, none, some, List, [], ◌∷◌, ◌++◌, ◌>>=◌, Text, text_eq, find, filter, traverse, head?,
}
use opencoi.Base.Sort.{sort}
use opencoi.Dates.{IsoDate, iso_date}
use opencoi.Domain.{
  unknown, not_applicable, CoverageType-discrete, CoiPolicyFacts, CoiDocumentFacts, coverage,
  rule_profile, vendor_type_rules_not_found, coverage_not_applicable, required_coverage_missing,
  coverage_review_required, coverage_type, vendor_type, ComplianceFinding, ComplianceException,
  DocumentComplianceEvaluation, derive_document_compliance_label,
}
use opencoi.Rules.Requirement.{
  Applicability, required, CoverageRequirement, VendorTypeRuleProfile, RulesetV1, Collation,
}
use opencoi.Rules.Finding.{finding, coverage_suffix, missing_status, code_by_status, profile_id}
use opencoi.Rules.Policy.{evaluate_policy}
use opencoi.Rules.Endorsement.{evaluate_endorsements}
use opencoi.Rules.Candidate.{CandidateEvaluation, compare_candidate_evaluations}
use mathlib.Core.Bool.{decide}

unfoldable pub no_candidate_finding : CoverageRequirement → CoiDocumentFacts → ComplianceFinding
no_candidate_finding requirement document =
    let status = missing_status document in
    finding requirement.id coverage_suffix coverage status
      (code_by_status status required_coverage_missing coverage_review_required)
      (coverage_type requirement.coverage_type) none []

unfoldable pub not_applicable_finding : CoverageRequirement → ComplianceFinding
not_applicable_finding requirement =
    finding requirement.id coverage_suffix coverage not_applicable coverage_not_applicable
      (coverage_type requirement.coverage_type) none []

unfoldable pub profile_not_found : Text → ComplianceFinding
profile_not_found vendor_type_id = record {
  id = profile_id vendor_type_id;
  requirement_id = vendor_type_id;
  category = rule_profile;
  status = unknown;
  code = vendor_type_rules_not_found;
  expected = vendor_type vendor_type_id;
  observed = none;
  evidence_ids = [];
}

unfoldable pub profile_of : RulesetV1 → Text → Option VendorTypeRuleProfile
profile_of rules vendor_type_id =
    find (λ (p : VendorTypeRuleProfile). text_eq p.vendor_type_id vendor_type_id) rules.vendor_types

module _ (collation : Collation) where
  -- The policies that show the coverage, by id.
  unfoldable pub candidate_policies : CoverageRequirement → CoiDocumentFacts → List CoiPolicyFacts
  candidate_policies requirement document =
      sort (λ (l r : CoiPolicyFacts). collation.locale_compare l.id r.id)
        (filter
          (λ (p : CoiPolicyFacts).
            decide (CoverageType-discrete p.coverage_type.value requirement.coverage_type))
          document.policies)

  unfoldable pub evaluate_candidate :
      CoverageRequirement → CoiDocumentFacts → IsoDate → CoiPolicyFacts → Option CandidateEvaluation
  evaluate_candidate requirement document evaluation_date policy = do
    findings ← evaluate_policy collation requirement policy document evaluation_date
    some (record { policy_id = policy.id; findings = findings })

  -- The best candidate's findings, then the endorsements.
  unfoldable pub findings_of_best :
      CoverageRequirement → CoiDocumentFacts → List CandidateEvaluation → List ComplianceFinding
  findings_of_best requirement document evaluations =
      elim (head? (sort (compare_candidate_evaluations collation) evaluations)) [
        | none ↦ []
        | some selected ↦ selected.findings ++ evaluate_endorsements collation requirement document
      ]

  unfoldable pub evaluate_candidates :
      CoverageRequirement
      → CoiDocumentFacts
      → IsoDate
      → List CoiPolicyFacts
      → Option (List ComplianceFinding)
  evaluate_candidates requirement document evaluation_date [] =
      some (no_candidate_finding requirement document ∷ [])
  evaluate_candidates requirement document evaluation_date (p ∷ ps) = do
    evaluations ← traverse (evaluate_candidate requirement document evaluation_date) (p ∷ ps)
    some (findings_of_best requirement document evaluations)

  unfoldable pub evaluate_coverage_requirement :
      CoiDocumentFacts → IsoDate → CoverageRequirement → Option (List ComplianceFinding)
  unfolding evaluate_candidates no_candidate_finding not_applicable_finding
  evaluate_coverage_requirement document evaluation_date requirement =
      elim requirement.applicability [
        | required ↦
            evaluate_candidates requirement document evaluation_date
              (candidate_policies requirement document)
        | Applicability.not_applicable ↦ some (not_applicable_finding requirement ∷ [])
      ]

  -- The loop over the requirements of a profile.
  unfoldable pub evaluate_requirements :
      CoiDocumentFacts → IsoDate → List CoverageRequirement → Option (List ComplianceFinding)
  evaluate_requirements document evaluation_date [] = some []
  evaluate_requirements document evaluation_date (r ∷ rs) =
      evaluate_coverage_requirement document evaluation_date r >>= λ fs.
      evaluate_requirements document evaluation_date rs >>= λ gs. some (fs ++ gs)

  unfoldable pub evaluate_profile :
      Option VendorTypeRuleProfile
      → Text
      → CoiDocumentFacts
      → IsoDate
      → Option (List ComplianceFinding)
  unfolding profile_not_found
  evaluate_profile none vendor_type_id document evaluation_date =
      some (profile_not_found vendor_type_id ∷ [])
  evaluate_profile (some profile) vendor_type_id document evaluation_date =
      evaluate_requirements document evaluation_date profile.requirements

  -- `evaluateCompliance` after `rulesetV1Schema.parse`.
  unfoldable pub evaluate_ruleset :
      RulesetV1
      → CoiDocumentFacts
      → Text
      → Text
      → List ComplianceException
      → Option DocumentComplianceEvaluation
  unfolding profile_of
  evaluate_ruleset rules document vendor_type_id evaluation_date exceptions = do
    day ← iso_date evaluation_date
    findings ← evaluate_profile (profile_of rules vendor_type_id) vendor_type_id document day
    some (record {
      document_id = document.id;
      ruleset_id = rules.id;
      vendor_type_id = vendor_type_id;
      evaluation_date = day;
      label = derive_document_compliance_label findings;
      findings = findings;
      exceptions = exceptions;
    })
