-- ===== src/Rules/Schema.antt =====
-- shared/rules.ts: the schemas of a ruleset. A schema is the function from its input type to its
-- output, `none` where `parse` throws. What zod does with a value of another type, and with keys
-- that a strict object does not know, is below the types of the inputs and not modelled.
pub mod Stable
pub mod Distinct
pub mod Valid
use opencoi.Base.{
  ℕ, suc, ◌+◌, ◌≤◌, Bool, true, false, not, ◌&&◌, ◌||◌, Option, none, some, List, [], ◌∷◌, ◌++◌,
  map, leb, ltb, ◌==◌, if◌then◌else◌, ◌>>=◌, Text, text_eq, truthy, is_digit, trim, length, any,
  traverse, is_some,
}
use opencoi.Base.Int.{ℤ, pos, negsuc}
use opencoi.Domain.{
  CoverageType, LimitType, EndorsementEvidenceLevel, none_shown, mentioned, RequiredPolicyField,
  max_safe_integer,
}
use opencoi.Rules.Requirement.{
  Applicability, required, LimitRequirement, EndorsementRequirement, CoverageRequirement,
  VendorTypeRuleProfile, RulesetV1,
}
use opencoi.Rules.Finding.{limit_type_text}

-- A number of the input: an integer, or what `int()` refuses.
pub data JsNumber : Type 0 where
  integer : ℤ → JsNumber
  not_integer : JsNumber

pub record LimitRequirementInput : Type 0 where
  pub limit_type : LimitType
  pub minimum_minor : JsNumber
  pub allow_umbrella_stacking : Option Bool
  pub umbrella_limit_type : Option LimitType

pub record EndorsementRequirementInput : Type 0 where
  pub id : Text
  pub form_code : Option Text
  pub name : Option Text
  pub applicability : Option Applicability
  pub minimum_evidence_level : Option EndorsementEvidenceLevel

pub record CoverageRequirementInput : Type 0 where
  pub id : Text
  pub coverage_type : CoverageType
  pub applicability : Option Applicability
  pub required_policy_fields : Option (List RequiredPolicyField)
  pub minimum_days_remaining : Option JsNumber
  pub minimum_limits : Option (List LimitRequirementInput)
  pub endorsements : Option (List EndorsementRequirementInput)

pub record VendorTypeRuleProfileInput : Type 0 where
  pub vendor_type_id : Text
  pub name : Text
  pub requirements : List CoverageRequirementInput

pub record RulesetV1Input : Type 0 where
  pub schema_version : Text
  pub id : Text
  pub name : Text
  pub currency : Text
  pub vendor_types : List VendorTypeRuleProfileInput

abbrev pub default {ℓ} : {A : Type ℓ} → A → Option A → A
default d none = d
default d (some a) = a

-- `.trim().min(1).max(limit)`
unfoldable pub trimmed_text : ℕ → Text → Option Text
trimmed_text limit t =
    let s = trim t in if leb 1 (length s) && leb (length s) limit then some s else none

unfoldable pub is_alphanumeric : ℕ → Bool
is_alphanumeric c = leb 97 c && leb c 122 || leb 65 c && leb c 90 || leb 48 c && leb c 57

-- `[a-zA-Z0-9._:-]`
unfoldable pub is_identifier_char : ℕ → Bool
is_identifier_char c = is_alphanumeric c || c == 46 || c == 95 || c == 58 || c == 45

-- /^[a-zA-Z0-9][a-zA-Z0-9._:-]*$/
unfoldable pub matches_identifier : Text → Bool
matches_identifier [] = false
matches_identifier (c ∷ s) =
    is_alphanumeric c && not (any (λ (d : ℕ). not (is_identifier_char d)) s)

unfoldable pub identifier : Text → Option Text
identifier t = do s ← trimmed_text 128 t; if matches_identifier s then some s else none

-- `int().min(low).max(high)` of a low that is not negative
unfoldable pub bounded_integer : ℕ → JsNumber → Option ℕ
bounded_integer high not_integer = none
bounded_integer high (integer (negsuc n)) = none
bounded_integer high (integer (pos n)) = if leb n high then some n else none

unfoldable pub money_minor : JsNumber → Option ℕ
unfolding bounded_integer
money_minor = bounded_integer max_safe_integer

unfoldable pub limit_requirement : LimitRequirementInput → Option LimitRequirement
limit_requirement input = do
  minimum ← money_minor input.minimum_minor
  let stacking = default false input.allow_umbrella_stacking
  if is_some input.umbrella_limit_type && not stacking
      then none
      else some (record {
        limit_type = input.limit_type;
        minimum_minor = minimum;
        allow_umbrella_stacking = stacking;
        umbrella_limit_type = input.umbrella_limit_type;
      })

-- `.trim().min(1).max(limit).optional()`
unfoldable pub optional_text : ℕ → Option Text → Option (Option Text)
optional_text limit none = some none
optional_text limit (some t) = trimmed_text limit t >>= λ s. some (some s)

abbrev pub is_none_level : EndorsementEvidenceLevel → Bool
is_none_level none_shown = true
is_none_level _ = false

unfoldable pub endorsement_requirement : EndorsementRequirementInput → Option EndorsementRequirement
endorsement_requirement input = do
  id ← identifier input.id
  form_code ← optional_text 100 input.form_code
  name ← optional_text 300 input.name
  let level = default mentioned input.minimum_evidence_level
  if not (is_some form_code) && not (is_some name) || is_none_level level
      then none
      else some (record {
        id = id;
        form_code = form_code;
        name = name;
        applicability = default required input.applicability;
        minimum_evidence_level = level;
      })

-- The indices at which `addDuplicateIssues` adds an issue.
unfoldable pub duplicate_issues_from : List Text → ℕ → List Text → List ℕ
duplicate_issues_from seen index [] = []
duplicate_issues_from seen index (value ∷ rest) =
    let issues = duplicate_issues_from (value ∷ seen) (index + 1) rest in
    if any (text_eq value) seen then index ∷ issues else issues

unfoldable pub add_duplicate_issues : List Text → List ℕ
unfolding duplicate_issues_from
add_duplicate_issues = duplicate_issues_from [] 0

abbrev pub is_empty {ℓ} : {A : Type ℓ} → List A → Bool
is_empty [] = true
is_empty (x ∷ xs) = false

abbrev pub limit_names : List LimitRequirement → List Text
limit_names = map (λ (l : LimitRequirement). limit_type_text l.limit_type)

abbrev pub endorsement_ids : List EndorsementRequirement → List Text
endorsement_ids = map (λ (e : EndorsementRequirement). e.id)

unfoldable pub coverage_requirement : CoverageRequirementInput → Option CoverageRequirement
coverage_requirement input = do
  id ← identifier input.id
  days ← bounded_integer 36500 (default (integer (pos 0)) input.minimum_days_remaining)
  limits ← traverse limit_requirement (default [] input.minimum_limits)
  endorsements ← traverse endorsement_requirement (default [] input.endorsements)
  if is_empty (add_duplicate_issues (limit_names limits))
        && is_empty (add_duplicate_issues (endorsement_ids endorsements))
      then some (record {
        id = id;
        coverage_type = input.coverage_type;
        applicability = default required input.applicability;
        required_policy_fields = default [] input.required_policy_fields;
        minimum_days_remaining = days;
        minimum_limits = limits;
        endorsements = endorsements;
      })
      else none

abbrev pub requirement_ids : List CoverageRequirement → List Text
requirement_ids = map (λ (r : CoverageRequirement). r.id)

unfoldable pub vendor_type_rule_profile : VendorTypeRuleProfileInput → Option VendorTypeRuleProfile
vendor_type_rule_profile input = do
  id ← identifier input.vendor_type_id
  name ← trimmed_text 200 input.name
  requirements ← traverse coverage_requirement input.requirements
  if not (is_empty requirements) && is_empty (add_duplicate_issues (requirement_ids requirements))
      then some (record { vendor_type_id = id; name = name; requirements = requirements })
      else none

abbrev pub vendor_type_ids : List VendorTypeRuleProfile → List Text
vendor_type_ids = map (λ (p : VendorTypeRuleProfile). p.vendor_type_id)

abbrev pub is_upper : ℕ → Bool
is_upper c = leb 65 c && leb c 90

-- /^[A-Z]{3}$/
unfoldable pub is_currency : Text → Bool
is_currency (a ∷ b ∷ c ∷ []) = is_upper a && is_upper b && is_upper c
is_currency t = false

-- RULES_SCHEMA_VERSION, "1.0"
abbrev pub rules_schema_version : Text
rules_schema_version = 49 ∷ 46 ∷ 48 ∷ []

-- `rulesetV1Schema`, the one member of `versionedRulesetSchema`: `parseRuleset`.
unfoldable pub parse_ruleset : RulesetV1Input → Option RulesetV1
parse_ruleset input = do
  id ← identifier input.id
  name ← trimmed_text 200 input.name
  vendor_types ← traverse vendor_type_rule_profile input.vendor_types
  if text_eq input.schema_version rules_schema_version
        && is_currency input.currency
        && not (is_empty vendor_types)
        && is_empty (add_duplicate_issues (vendor_type_ids vendor_types))
      then some
          (record { id = id; name = name; currency = input.currency; vendor_types = vendor_types })
      else none
