-- ===== src/Rules/Examples/Inputs.antt =====
-- The example rules as an input, and the evaluation of the certificate with them.
use native.Mathlib.Omega.{arith}
use opencoi.Base.{
  true, ◌≡◌, ◌↔◌, refl, none, some, [], ◌∷◌, codes, any, text_eq, is_digit, is_space, trim,
  trim_start, trim_end, traverse,
}
use opencoi.Base.Int.{pos}
use opencoi.Dates.{
  date, iso_date, iso_date_pattern, is_calendar_date, date_of_day, utc_day, year_of, month_of,
  days_before_year, days_before_month,
}
use opencoi.Domain.{
  commercial_general_liability, each_occurrence, insurer_name, DocumentComplianceEvaluation,
}
use opencoi.Rules.Requirement.{RulesetV1, required}
use opencoi.Rules.Schema.{
  integer, LimitRequirementInput, EndorsementRequirementInput, CoverageRequirementInput,
  VendorTypeRuleProfileInput, RulesetV1Input, parse_ruleset, vendor_type_rule_profile,
  coverage_requirement, limit_requirement, endorsement_requirement, identifier, trimmed_text,
  optional_text, money_minor, bounded_integer, matches_identifier, is_identifier_char,
  is_alphanumeric, add_duplicate_issues, duplicate_issues_from, is_currency,
}
use opencoi.Rules.Schema.Stable.{ruleset_input, parse_ruleset_stable}
use opencoi.Rules.Schema.Valid.{IsRuleset, parse_ruleset-IsRuleset}
use opencoi.Rules.Compliance.{evaluate_compliance}
use opencoi.Rules.Compliance.Returns.{evaluate_compliance-returns_iff}
use opencoi.Rules.Examples.{by_code_unit, certificate, rules}

abbrev limit_input : LimitRequirementInput
limit_input = record {
  limit_type = each_occurrence;
  minimum_minor = integer (pos 150);
  allow_umbrella_stacking = some true;
  umbrella_limit_type = none;
}

abbrev endorsement_input : EndorsementRequirementInput
endorsement_input = record {
  id = codes " ai ";
  form_code = some (codes "CG 2010");
  name = none;
  applicability = none;
  minimum_evidence_level = none;
}

abbrev requirement_input : CoverageRequirementInput
requirement_input = record {
  id = codes "gl";
  coverage_type = commercial_general_liability;
  applicability = some required;
  required_policy_fields = some (insurer_name ∷ []);
  minimum_days_remaining = some (integer (pos 30));
  minimum_limits = some (limit_input ∷ []);
  endorsements = some (endorsement_input ∷ []);
}

abbrev profile_input : VendorTypeRuleProfileInput
profile_input = record {
  vendor_type_id = codes "contractor";
  name = codes "Contractors";
  requirements = requirement_input ∷ [];
}

abbrev input : RulesetV1Input
input = record {
  schema_version = codes "1.0";
  id = codes "r1 ";
  name = codes "Rules";
  currency = codes "USD";
  vendor_types = profile_input ∷ [];
}

input_parses : parse_ruleset input ≡ some rules
unfolding parse_ruleset vendor_type_rule_profile coverage_requirement limit_requirement
    endorsement_requirement identifier trimmed_text optional_text money_minor bounded_integer
    matches_identifier is_identifier_char is_alphanumeric add_duplicate_issues duplicate_issues_from
    is_currency is_digit is_space trim trim_start trim_end traverse any text_eq
input_parses = refl

parse_ruleset_stable_example : parse_ruleset (ruleset_input rules) ≡ some rules
parse_ruleset_stable_example = parse_ruleset_stable input rules input_parses

parse_ruleset-IsRuleset_example : IsRuleset rules
parse_ruleset-IsRuleset_example = parse_ruleset-IsRuleset input rules input_parses

evaluate_compliance-returns_iff_example :
    ((e : DocumentComplianceEvaluation) × (evaluate_compliance by_code_unit input certificate
          (codes "contractor")
          (codes "2026-12-02")
          []
        ≡ some e))
    ↔ ((r : RulesetV1) × (parse_ruleset input ≡ some r))
unfolding iso_date iso_date_pattern is_calendar_date date_of_day utc_day year_of month_of
    days_before_year days_before_month is_digit
evaluate_compliance-returns_iff_example =
    evaluate_compliance-returns_iff by_code_unit input certificate (codes "contractor")
      (codes "2026-12-02") [] (date 2026 12 2) refl (omega arith)
