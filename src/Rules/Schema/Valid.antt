-- ===== src/Rules/Schema/Valid.antt =====
-- shared/rules.ts: what the schemas guarantee of a parsed ruleset.
use opencoi.Base.{
  ℕ, ◌≤◌, ◌≡◌, ◌≢◌, ◌⊎◌, refl, subst, Bool, true, false, Option, none, some, List, [], ◌∷◌, arith,
  some-inj, >>=-eq-some, traverse, traverse-All, All, All-unit, Text, length, is_some,
  if◌then◌else◌,
}
use opencoi.Domain.{none_shown, max_safe_integer}
use opencoi.Rules.Requirement.{
  LimitRequirement, EndorsementRequirement, CoverageRequirement, VendorTypeRuleProfile, RulesetV1,
}
use opencoi.Rules.Schema.{
  LimitRequirementInput, EndorsementRequirementInput, CoverageRequirementInput,
  VendorTypeRuleProfileInput, RulesetV1Input, JsNumber, trimmed_text, matches_identifier,
  identifier, bounded_integer, money_minor, limit_requirement, optional_text,
  endorsement_requirement, coverage_requirement, vendor_type_rule_profile, parse_ruleset, is_empty,
  add_duplicate_issues, limit_names, endorsement_ids, requirement_ids, vendor_type_ids, is_currency,
}
use opencoi.Rules.Schema.Distinct.{IsDistinct, add_duplicate_issues-nil_iff}

pub record IsIdentifier (t : Text) : Type 0 where
  pub not_empty : 1 ≤ length t
  pub not_long : length t ≤ 128
  pub well_formed : matches_identifier t ≡ true

pub record IsLimit (l : LimitRequirement) : Type 0 where
  pub safe : l.minimum_minor ≤ max_safe_integer
  pub umbrella_needs_stacking :
      is_some l.umbrella_limit_type ≡ true → l.allow_umbrella_stacking ≡ true

pub record IsEndorsement (e : EndorsementRequirement) : Type 0 where
  pub id : IsIdentifier e.id
  pub named : (is_some e.form_code ≡ true) ⊎ (is_some e.name ≡ true)
  pub asks_evidence : e.minimum_evidence_level ≢ none_shown

pub record IsCoverage (r : CoverageRequirement) : Type 0 where
  pub id : IsIdentifier r.id
  pub days : r.minimum_days_remaining ≤ 36500
  pub limits : All IsLimit r.minimum_limits
  pub endorsements : All IsEndorsement r.endorsements
  pub limits_differ : IsDistinct (limit_names r.minimum_limits)
  pub endorsements_differ : IsDistinct (endorsement_ids r.endorsements)

pub record IsProfile (p : VendorTypeRuleProfile) : Type 0 where
  pub id : IsIdentifier p.vendor_type_id
  pub some_requirement : p.requirements ≢ []
  pub requirements : All IsCoverage p.requirements
  pub requirements_differ : IsDistinct (requirement_ids p.requirements)

pub record IsRuleset (r : RulesetV1) : Type 0 where
  pub id : IsIdentifier r.id
  pub currency : is_currency r.currency ≡ true
  pub some_profile : r.vendor_types ≢ []
  pub profiles : All IsProfile r.vendor_types
  pub profiles_differ : IsDistinct (vendor_type_ids r.vendor_types)

is_empty_sound : {A : Type 0} (xs : List A) → is_empty xs ≡ true → xs ≡ []
is_empty_sound [] h = refl
is_empty_sound (x ∷ xs) h = ground arith

identifier-IsIdentifier : (t s : Text) → identifier t ≡ some s → IsIdentifier s
unfolding identifier trimmed_text
identifier-IsIdentifier t s h = ground arith

limit_requirement-IsLimit :
    (x : LimitRequirementInput) (l : LimitRequirement) → limit_requirement x ≡ some l → IsLimit l
unfolding limit_requirement money_minor
limit_requirement-IsLimit x l h = ground arith

endorsement_requirement-IsEndorsement :
    (x : EndorsementRequirementInput) (e : EndorsementRequirement)
    → endorsement_requirement x ≡ some e
    → IsEndorsement e
unfolding endorsement_requirement
endorsement_requirement-IsEndorsement x e h =
    let (i, pi, h1) = >>=-eq-some (identifier x.id) _ h in
    let (f, pf, h2) = >>=-eq-some (optional_text 100 x.form_code) _ h1 in
    let (n, pn, h3) = >>=-eq-some (optional_text 300 x.name) _ h2 in
    record {
      id = ground (arith, identifier-IsIdentifier x.id i pi);
      named = ground arith;
      asks_evidence = λ q. ground arith;
    }

bounded_integer-le : (n : ℕ) (x : JsNumber) (d : ℕ) → bounded_integer n x ≡ some d → d ≤ n
unfolding bounded_integer
bounded_integer-le n x d h = ground arith

guard_passed :
    {A : Type 0} (b : Bool) (x y : A) → (if b then some x else none) ≡ some y → (b ≡ true) × (x ≡ y)
guard_passed true x y h = (refl, some-inj h)
guard_passed false x y h = ground arith

All-parsed :
    {A B : Type 0} (f : A → Option B) (P : B → Type 0)
    → ((x : A) (y : B) → f x ≡ some y → P y)
    → (xs : List A) (ys : List B) → traverse f xs ≡ some ys
    → All P ys
All-parsed f P h xs ys e = traverse-All f (λ _. Unit {0}) P (λ x y _. h x y) xs ys (All-unit xs) e

-- What the checks of duplicates give.
IsDistinct-values :
    (values : List Text) → is_empty (add_duplicate_issues values) ≡ true → IsDistinct values
IsDistinct-values values h = (add_duplicate_issues-nil_iff values).0 (is_empty_sound _ h)

coverage_requirement-IsCoverage :
    (x : CoverageRequirementInput) (r : CoverageRequirement)
    → coverage_requirement x ≡ some r
    → IsCoverage r
unfolding coverage_requirement
coverage_requirement-IsCoverage x r h =
    let (i, pi, h1) = >>=-eq-some (identifier x.id) _ h in
    let (d, pd, h2) = >>=-eq-some (bounded_integer 36500 _) _ h1 in
    let (ls, pl, h3) = >>=-eq-some (traverse limit_requirement _) _ h2 in
    let (es, pe, h4) = >>=-eq-some (traverse endorsement_requirement _) _ h3 in
    let (g, q) = guard_passed _ _ r h4 in
    subst IsCoverage q (record {
      id = identifier-IsIdentifier x.id i pi;
      days = bounded_integer-le 36500 _ d pd;
      limits = All-parsed limit_requirement IsLimit limit_requirement-IsLimit _ ls pl;
      endorsements =
          All-parsed endorsement_requirement IsEndorsement endorsement_requirement-IsEndorsement _
            es pe;
      limits_differ = IsDistinct-values (limit_names ls) (ground arith);
      endorsements_differ = IsDistinct-values (endorsement_ids es) (ground arith);
    })

vendor_type_rule_profile-IsProfile :
    (x : VendorTypeRuleProfileInput) (p : VendorTypeRuleProfile)
    → vendor_type_rule_profile x ≡ some p
    → IsProfile p
unfolding vendor_type_rule_profile
vendor_type_rule_profile-IsProfile x p h =
    let (i, pi, h1) = >>=-eq-some (identifier x.vendor_type_id) _ h in
    let (n, pn, h2) = >>=-eq-some (trimmed_text 200 x.name) _ h1 in
    let (rs, pr, h3) = >>=-eq-some (traverse coverage_requirement x.requirements) _ h2 in
    let (g, q) = guard_passed _ _ p h3 in
    subst IsProfile q (record {
      id = identifier-IsIdentifier x.vendor_type_id i pi;
      some_requirement = λ k. ground arith;
      requirements =
          All-parsed coverage_requirement IsCoverage coverage_requirement-IsCoverage _ rs pr;
      requirements_differ = IsDistinct-values (requirement_ids rs) (ground arith);
    })

-- A ruleset that parses is well-formed: its identifiers and currency have their form, its amounts
-- and days are in range, it has profiles and they have requirements, an umbrella limit type stands only with
-- stacking, each endorsement is named and asks for evidence, and no identifier or limit type stands
-- twice within its list.
pub parse_ruleset-IsRuleset :
    (x : RulesetV1Input) (r : RulesetV1) → parse_ruleset x ≡ some r → IsRuleset r
unfolding parse_ruleset
parse_ruleset-IsRuleset x r h =
    let (i, pi, h1) = >>=-eq-some (identifier x.id) _ h in
    let (n, pn, h2) = >>=-eq-some (trimmed_text 200 x.name) _ h1 in
    let (ps, pp, h3) = >>=-eq-some (traverse vendor_type_rule_profile x.vendor_types) _ h2 in
    let (g, q) = guard_passed _ _ r h3 in
    subst IsRuleset q (record {
      id = identifier-IsIdentifier x.id i pi;
      currency = ground arith;
      some_profile = λ k. ground arith;
      profiles =
          All-parsed vendor_type_rule_profile IsProfile vendor_type_rule_profile-IsProfile _ ps pp;
      profiles_differ = IsDistinct-values (vendor_type_ids ps) (ground arith);
    })
