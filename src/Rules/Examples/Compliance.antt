-- ===== src/Rules/Examples/Compliance.antt =====
-- The evaluation of the example certificate, before and after its review.
use mathlib.Core.List.{Memᴰ}
use opencoi.Domain.Label.{Means, label-iff_Means}
use opencoi.Rules.HumanAuthority.{IsUndecided, evaluate_ruleset-IsUndecided}
use opencoi.Rules.Compliant.{MeetsAll, compliant-MeetsAll}
use opencoi.Rules.Chosen.{IsBest, reported-IsBest}
use opencoi.Rules.Requirement.{VendorTypeRuleProfile}
use opencoi.Base.{
  ◌≡◌, ◌↔◌, ◌⊎◌, List, All, refl, Option, none, some, [], codes, is_digit, text_eq, any, find,
  filter, traverse,
}
use opencoi.Base.Sort.{insert_sorted, sort}
use opencoi.Dates.{
  IsoDate, date, days_before_year, days_before_month, utc_day, year_of, month_of, date_of_day,
  iso_text, iso_string_prefix, iso_date_pattern, is_calendar_date, iso_date, iso_date_to_epoch_day,
  add_iso_date_days,
}
use opencoi.Domain.{
  CoiDocumentFacts, CoverageType-discrete, DocumentComplianceEvaluation, document_compliant,
  document_review_required, document_not_applicable, ComplianceFinding,
  derive_document_compliance_label,
}
use opencoi.Rules.Evaluate.{evaluate_ruleset, profile_of}
use mathlib.Core.Bool.{decide}
use opencoi.Base.Int.{◌+ℤ◌}
use opencoi.Rules.Evaluate.{
  evaluate_profile, evaluate_requirements, evaluate_coverage_requirement, candidate_policies,
  evaluate_candidate, findings_of_best,
}
use opencoi.Rules.Finding.{finding_id}
use opencoi.Rules.Policy.{evaluate_policy, coverage_finding, field_finding}
use opencoi.Rules.Period.{evaluate_policy_period, dates_cover, is_policy_active_through}
use opencoi.Rules.Limit.{
  default_umbrella_limit_type, safe_money_add, umbrella_candidate, umbrella_candidates,
  compare_umbrellas, stacked_finding, umbrella_finding, evaluate_limit,
}
use opencoi.Rules.Endorsement.{
  evaluate_endorsements, best_evidence, compare_evidence, endorsement_matches, normalized_identity,
  evaluate_endorsement,
}
use opencoi.Rules.Candidate.{status_counts, compare_candidate_evaluations}
use opencoi.Rules.Examples.{
  by_code_unit, lex_compare, certificate, draft, rules, liability, liability_requirement,
}

-- The evaluation on 2026-12-02, whose through-date is the expiration date.
evaluated : CoiDocumentFacts → Option DocumentComplianceEvaluation
unfolding evaluate_ruleset iso_date iso_date_pattern is_calendar_date date_of_day utc_day year_of
    month_of days_before_year days_before_month add_iso_date_days iso_date_to_epoch_day
    iso_string_prefix iso_text ◌+ℤ◌ find text_eq lex_compare evaluate_profile evaluate_requirements
    evaluate_coverage_requirement candidate_policies sort insert_sorted filter decide
    CoverageType-discrete traverse evaluate_candidate evaluate_policy coverage_finding field_finding
    evaluate_policy_period dates_cover evaluate_limit default_umbrella_limit_type safe_money_add
    umbrella_candidate umbrella_candidates compare_umbrellas stacked_finding umbrella_finding any
    is_policy_active_through findings_of_best compare_candidate_evaluations status_counts
    evaluate_endorsements best_evidence compare_evidence endorsement_matches normalized_identity
    is_digit evaluate_endorsement derive_document_compliance_label finding_id
evaluated document =
    evaluate_ruleset by_code_unit rules document (codes "contractor") (codes "2026-12-02") []

abbrev empty_evaluation : DocumentComplianceEvaluation
empty_evaluation = record {
  document_id = [];
  ruleset_id = [];
  vendor_type_id = [];
  evaluation_date = date 0 0 0;
  label = document_review_required;
  findings = [];
  exceptions = [];
}

evaluation : CoiDocumentFacts → DocumentComplianceEvaluation
evaluation document = elim (evaluated document) [ none ↦ empty_evaluation | some e ↦ e ]

certificate_evaluates :
    evaluate_ruleset by_code_unit rules certificate (codes "contractor") (codes "2026-12-02") []
    ≡ some (evaluation certificate)
unfolding evaluation evaluated
certificate_evaluates = refl

draft_evaluates :
    evaluate_ruleset by_code_unit rules draft (codes "contractor") (codes "2026-12-02") []
    ≡ some (evaluation draft)
unfolding evaluation evaluated
draft_evaluates = refl

certificate_label : (evaluation certificate).label ≡ document_compliant
unfolding evaluation evaluated
certificate_label = refl

draft_label : (evaluation draft).label ≡ document_review_required
unfolding evaluation evaluated
draft_label = refl

evaluate_ruleset-IsUndecided_example :
    All IsUndecided (evaluation draft).findings
    × (((evaluation draft).label ≡ document_review_required)
        ⊎ ((evaluation draft).label ≡ document_not_applicable))
evaluate_ruleset-IsUndecided_example =
    evaluate_ruleset-IsUndecided by_code_unit rules draft (codes "contractor") (codes "2026-12-02")
      [] (evaluation draft) refl draft_evaluates

compliant-MeetsAll_example :
    (profile : VendorTypeRuleProfile) × (day : IsoDate) × (profile_of rules (codes "contractor")
      ≡ some profile)
    × (iso_date (codes "2026-12-02") ≡ some day)
    × MeetsAll certificate day profile.requirements
compliant-MeetsAll_example =
    compliant-MeetsAll by_code_unit rules certificate (codes "contractor") (codes "2026-12-02") []
      (evaluation certificate) certificate_evaluates certificate_label

label-iff_Means_example :
    (derive_document_compliance_label (evaluation certificate).findings ≡ document_compliant)
    ↔ Means document_compliant (evaluation certificate).findings
label-iff_Means_example = label-iff_Means (evaluation certificate).findings document_compliant

-- The findings of the liability policy, and those of the requirement.
policy_findings : List ComplianceFinding
unfolding evaluated
policy_findings =
    elim (evaluate_policy by_code_unit liability_requirement liability certificate
      (date 2026 12 2)) [ none ↦ [] | some fs ↦ fs ]

requirement_findings : List ComplianceFinding
unfolding evaluated
requirement_findings =
    elim (evaluate_coverage_requirement by_code_unit certificate (date 2026 12 2)
      liability_requirement) [ none ↦ [] | some fs ↦ fs ]

reported-IsBest_example :
    IsBest by_code_unit certificate
      (date 2026 12 2)
      liability_requirement
      requirement_findings
      policy_findings
unfolding policy_findings requirement_findings
reported-IsBest_example =
    reported-IsBest by_code_unit certificate (date 2026 12 2) liability_requirement liability
      policy_findings refl requirement_findings refl (Memᴰ.tail (Memᴰ.head refl)) refl refl
