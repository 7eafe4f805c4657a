-- ===== src/Rules/Examples.antt =====
-- A certificate, a ruleset and a collation, evaluated; the theorems on the rules engine at them.
mod Compliance
mod Inputs
use opencoi.Base.{
  ℕ, ◌≡◌, ◌≢◌, refl, compare, Ordering, true, false, Bool, Option, none, some, List, [], ◌∷◌, arith,
  Text, codes,
}
use opencoi.Base.Sort.{or_else}
use opencoi.Dates.{IsoDate, date}
use opencoi.Domain.{
  commercial_general_liability, umbrella_excess_liability, LimitType, each_occurrence, mentioned,
  attached, ConfirmationStatus, confirmed, unconfirmed, manual, EvidenceField, CoiPolicyFacts,
  CoiEndorsementEvidence, CoiDocumentFacts, insurer_name,
}
use opencoi.Rules.Requirement.{
  Applicability, required, LimitRequirement, EndorsementRequirement, CoverageRequirement,
  VendorTypeRuleProfile, RulesetV1, Collation,
}

-- The order of code units, one collation that is consistent.
lex_compare : Text → Text → Ordering
lex_compare [] [] = Ordering.eq
lex_compare [] (b ∷ t) = Ordering.lt
lex_compare (a ∷ s) [] = Ordering.gt
lex_compare (a ∷ s) (b ∷ t) = or_else (compare a b) (lex_compare s t)

lex_compare_asym : (s t : Text) → lex_compare s t ≡ Ordering.gt → lex_compare t s ≡ Ordering.lt
unfolding lex_compare
lex_compare_asym [] [] h = ground arith
lex_compare_asym [] (b ∷ t) h = ground arith
lex_compare_asym (a ∷ s) [] h = refl
lex_compare_asym (a ∷ s) (b ∷ t) h = ground (arith, lex_compare_asym s t)

lex_compare_trans :
    (s t u : Text)
    → lex_compare s t ≢ Ordering.gt
    → lex_compare t u ≢ Ordering.gt
    → lex_compare s u ≢ Ordering.gt
unfolding lex_compare
lex_compare_trans [] t [] h k = ground arith
lex_compare_trans [] t (c ∷ u) h k = ground arith
lex_compare_trans (a ∷ s) [] u h k = absurd (h refl)
lex_compare_trans (a ∷ s) (b ∷ t) [] h k = absurd (k refl)
lex_compare_trans (a ∷ s) (b ∷ t) (c ∷ u) h k = ground (arith, lex_compare_trans s t u)

abbrev by_code_unit : Collation
by_code_unit = record {
  locale_compare = lex_compare;
  asym = lex_compare_asym;
  trans = lex_compare_trans;
}

abbrev shown {ℓ} : {T : Type ℓ} → T → EvidenceField T
shown v = record {
  value = v;
  confirmation = confirmed;
  source = manual;
  confidence_bps = none;
  raw_text = none;
  page = none;
}

abbrev only_each_occurrence : ℕ → LimitType → Option (EvidenceField ℕ)
only_each_occurrence n each_occurrence = some (shown n)
only_each_occurrence n _ = none

abbrev liability : CoiPolicyFacts
liability = record {
  id = codes "gl";
  coverage_type = shown commercial_general_liability;
  insurer_name = some (shown (codes "Acme"));
  policy_number = none;
  effective_date = some (shown (date 2026 1 1));
  expiration_date = some (shown (date 2027 1 1));
  limits = only_each_occurrence 100;
}

abbrev umbrella : CoiPolicyFacts
umbrella = record {
  id = codes "um";
  coverage_type = shown umbrella_excess_liability;
  insurer_name = none;
  policy_number = none;
  effective_date = some (shown (date 2026 1 1));
  expiration_date = some (shown (date 2027 1 1));
  limits = only_each_occurrence 50;
}

abbrev additional_insured : CoiEndorsementEvidence
additional_insured = record {
  id = codes "e1";
  form_code = some (shown (codes "cg 20-10"));
  name = none;
  evidence_level = shown attached;
  source_pages = some (2 ∷ []);
}

abbrev certificate : CoiDocumentFacts
certificate = record {
  id = codes "doc";
  review_status = confirmed;
  named_insured = none;
  certificate_holder = none;
  policies = umbrella ∷ liability ∷ [];
  endorsements = additional_insured ∷ [];
}

-- The same certificate before its review.
abbrev draft : CoiDocumentFacts
draft = record certificate { review_status = unconfirmed }

abbrev stacking_limit : LimitRequirement
stacking_limit = record {
  limit_type = each_occurrence;
  minimum_minor = 150;
  allow_umbrella_stacking = true;
  umbrella_limit_type = none;
}

abbrev additional_insured_form : EndorsementRequirement
additional_insured_form = record {
  id = codes "ai";
  form_code = some (codes "CG 2010");
  name = none;
  applicability = required;
  minimum_evidence_level = mentioned;
}

abbrev liability_requirement : CoverageRequirement
liability_requirement = record {
  id = codes "gl";
  coverage_type = commercial_general_liability;
  applicability = required;
  required_policy_fields = insurer_name ∷ [];
  minimum_days_remaining = 30;
  minimum_limits = stacking_limit ∷ [];
  endorsements = additional_insured_form ∷ [];
}

abbrev contractors : VendorTypeRuleProfile
contractors = record {
  vendor_type_id = codes "contractor";
  name = codes "Contractors";
  requirements = liability_requirement ∷ [];
}

abbrev rules : RulesetV1
rules = record {
  id = codes "r1";
  name = codes "Rules";
  currency = codes "USD";
  vendor_types = contractors ∷ [];
}
