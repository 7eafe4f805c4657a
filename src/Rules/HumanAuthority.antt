-- ===== src/Rules/HumanAuthority.antt =====
-- shared/rules.ts: a document that nobody confirmed is not decided, by any of the checks.
use opencoi.Base.{◌≡◌, ◌⊎◌, refl, false, some, List, arith, All, All-imp, any-false, Text}
use opencoi.Dates.{IsoDate}
use opencoi.Rules.EveryFinding.{EveryCheck, evaluate_profile-All, evaluate_ruleset-eq-some}
use opencoi.Rules.Evaluate.{
  no_candidate_finding, not_applicable_finding, profile_of, profile_not_found, evaluate_ruleset,
}
use opencoi.Domain.{
  unconfirmed, ComplianceException, DocumentComplianceEvaluation, derive_document_compliance_label,
  document_review_required, document_not_applicable, CoiPolicyFacts, CoiDocumentFacts,
  ComplianceFinding, is_pass, is_fail, RequiredPolicyField,
}
use opencoi.Rules.Requirement.{
  LimitRequirement, EndorsementRequirement, CoverageRequirement, Collation, RulesetV1,
}
use opencoi.Rules.Policy.{coverage_finding, field_finding}
use opencoi.Rules.Period.{evaluate_policy_period}
use opencoi.Rules.Limit.{evaluate_limit}
use opencoi.Rules.Endorsement.{evaluate_endorsement}

-- Neither a pass nor a failure.
pub record IsUndecided (f : ComplianceFinding) : Type 0 where
  pub no_pass : is_pass f.status ≡ false
  pub no_fail : is_fail f.status ≡ false

module _ (document : CoiDocumentFacts) (waiting : document.review_status ≡ unconfirmed) where
  coverage_finding-IsUndecided :
      (r : CoverageRequirement) (p : CoiPolicyFacts) → IsUndecided (coverage_finding r p document)
  unfolding coverage_finding
  coverage_finding-IsUndecided r p = ground arith

  field_finding-IsUndecided :
      (r : CoverageRequirement) (p : CoiPolicyFacts) (f : RequiredPolicyField)
      → IsUndecided (field_finding r p document f)
  unfolding field_finding
  field_finding-IsUndecided r p f = ground arith

  evaluate_policy_period-IsUndecided :
      (r : CoverageRequirement) (p : CoiPolicyFacts) (day : IsoDate) (f : ComplianceFinding)
      → evaluate_policy_period r p document day ≡ some f
      → IsUndecided f
  unfolding evaluate_policy_period
  evaluate_policy_period-IsUndecided r p day f h = ground arith

  evaluate_limit-IsUndecided :
      (c : Collation) (r : CoverageRequirement) (l : LimitRequirement) (p : CoiPolicyFacts)
      (day : IsoDate) (f : ComplianceFinding)
      → evaluate_limit c r l p document day ≡ some f
      → IsUndecided f
  unfolding evaluate_limit
  evaluate_limit-IsUndecided c r l p day f h = ground arith

  evaluate_endorsement-IsUndecided :
      (c : Collation) (r : CoverageRequirement) (e : EndorsementRequirement)
      → IsUndecided (evaluate_endorsement c r document e)
  unfolding evaluate_endorsement
  evaluate_endorsement-IsUndecided c r e = ground arith

  every_check-IsUndecided :
      (c : Collation) (day : IsoDate) → EveryCheck c document day (λ _ f. IsUndecided f)
  unfolding no_candidate_finding not_applicable_finding
  every_check-IsUndecided c day = record {
    policies = record {
      coverage = coverage_finding-IsUndecided;
      fields = field_finding-IsUndecided;
      periods = λ r p f. evaluate_policy_period-IsUndecided r p day f;
      limits = λ r l p f. evaluate_limit-IsUndecided c r l p day f;
    };
    endorsements = evaluate_endorsement-IsUndecided c;
    no_candidate = λ r. ground arith;
    skipped = λ r. record { no_pass = refl; no_fail = refl };
  }

label-of_IsUndecided :
    (fs : List ComplianceFinding)
    → All IsUndecided fs
    → let l = derive_document_compliance_label fs in
      (l ≡ document_review_required) ⊎ (l ≡ document_not_applicable)
unfolding derive_document_compliance_label
label-of_IsUndecided fs h = ground (
  arith,
  any-false (λ (f : ComplianceFinding). is_fail f.status) fs
      (All-imp IsUndecided (λ (f : ComplianceFinding). is_fail f.status ≡ false) (λ f u. u.no_fail)
        fs h),
  any-false (λ (f : ComplianceFinding). is_pass f.status) fs
      (All-imp IsUndecided (λ (f : ComplianceFinding). is_pass f.status ≡ false) (λ f u. u.no_pass)
        fs h),
)

-- While a document awaits review no finding is a pass or a failure, whatever it shows and whatever
-- the rules ask, and the label is review required or not applicable.
pub evaluate_ruleset-IsUndecided :
    (c : Collation) (rules : RulesetV1) (document : CoiDocumentFacts) (v d : Text)
    (xs : List ComplianceException) (e : DocumentComplianceEvaluation)
    → document.review_status ≡ unconfirmed
    → evaluate_ruleset c rules document v d xs ≡ some e
    → All IsUndecided e.findings
      × ((e.label ≡ document_review_required) ⊎ (e.label ≡ document_not_applicable))
evaluate_ruleset-IsUndecided c rules document v d xs e waiting h =
    let (day, de, fe, le) = evaluate_ruleset-eq-some c rules document v d xs e h in
    let all =
      evaluate_profile-All c document day IsUndecided
        (every_check-IsUndecided document waiting c day) (profile_of rules v) v e.findings
        (unfold profile_not_found in (record { no_pass = refl; no_fail = refl })) fe in
    (all, rw le (label-of_IsUndecided e.findings all))
