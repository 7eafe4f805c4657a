-- ===== src/Rules/Requirement.antt =====
-- shared/rules.ts: a ruleset after parsing, and the parameter for the collation of strings.
use opencoi.Base.{ℕ, ◌≢◌, ◌≡◌, Bool, Option, List, Ordering, Text}
use opencoi.Domain.{CoverageType, LimitType, EndorsementEvidenceLevel, RequiredPolicyField}

pub data Applicability : Type 0 where
  required not_applicable : Applicability

pub record LimitRequirement : Type 0 where
  pub limit_type : LimitType
  pub minimum_minor : ℕ
  pub allow_umbrella_stacking : Bool
  pub umbrella_limit_type : Option LimitType

pub record EndorsementRequirement : Type 0 where
  pub id : Text
  pub form_code : Option Text
  pub name : Option Text
  pub applicability : Applicability
  pub minimum_evidence_level : EndorsementEvidenceLevel

pub record CoverageRequirement : Type 0 where
  pub id : Text
  pub coverage_type : CoverageType
  pub applicability : Applicability
  pub required_policy_fields : List RequiredPolicyField
  pub minimum_days_remaining : ℕ
  pub minimum_limits : List LimitRequirement
  pub endorsements : List EndorsementRequirement

pub record VendorTypeRuleProfile : Type 0 where
  pub vendor_type_id : Text
  pub name : Text
  pub requirements : List CoverageRequirement

pub record RulesetV1 : Type 0 where
  pub id : Text
  pub name : Text
  pub currency : Text
  pub vendor_types : List VendorTypeRuleProfile

-- `String.prototype.localeCompare` depends on the locale data of the host. The code relies on a
-- consistent comparison: no two texts are each after the other, and the order is transitive.
pub record Collation : Type 0 where
  pub locale_compare : Text → Text → Ordering
  pub asym : (s t : Text) → locale_compare s t ≡ Ordering.gt → locale_compare t s ≡ Ordering.lt
  pub trans :
      (s t u : Text)
      → locale_compare s t ≢ Ordering.gt
      → locale_compare t u ≢ Ordering.gt
      → locale_compare s u ≢ Ordering.gt
