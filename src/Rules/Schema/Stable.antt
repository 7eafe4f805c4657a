-- ===== src/Rules/Schema/Stable.antt =====
-- shared/rules.ts: a parsed ruleset parses to itself, so `evaluateCompliance` may parse it again.
use opencoi.Base.{
  ℕ, ◌≡◌, refl, Option, none, some, List, [], ◌∷◌, map, arith, some-inj, >>=-eq-some, traverse,
  subst, Text, text_eq_refl, trim, trim_idem,
}
use opencoi.Base.Int.{pos}
use opencoi.Rules.Requirement.{
  LimitRequirement, EndorsementRequirement, CoverageRequirement, VendorTypeRuleProfile, RulesetV1,
}
use opencoi.Rules.Schema.{
  JsNumber, integer, LimitRequirementInput, EndorsementRequirementInput, CoverageRequirementInput,
  VendorTypeRuleProfileInput, RulesetV1Input, trimmed_text, identifier, bounded_integer,
  money_minor, limit_requirement, optional_text, endorsement_requirement, coverage_requirement,
  vendor_type_rule_profile, parse_ruleset, rules_schema_version,
}

-- A parsed value as an input: `RulesetV1` is a `RulesetV1Input`.
abbrev pub limit_input : LimitRequirement → LimitRequirementInput
limit_input l = record {
  limit_type = l.limit_type;
  minimum_minor = integer (pos l.minimum_minor);
  allow_umbrella_stacking = some l.allow_umbrella_stacking;
  umbrella_limit_type = l.umbrella_limit_type;
}

abbrev pub endorsement_input : EndorsementRequirement → EndorsementRequirementInput
endorsement_input e = record {
  id = e.id;
  form_code = e.form_code;
  name = e.name;
  applicability = some e.applicability;
  minimum_evidence_level = some e.minimum_evidence_level;
}

abbrev pub coverage_input : CoverageRequirement → CoverageRequirementInput
coverage_input r = record {
  id = r.id;
  coverage_type = r.coverage_type;
  applicability = some r.applicability;
  required_policy_fields = some r.required_policy_fields;
  minimum_days_remaining = some (integer (pos r.minimum_days_remaining));
  minimum_limits = some (map limit_input r.minimum_limits);
  endorsements = some (map endorsement_input r.endorsements);
}

abbrev pub profile_input : VendorTypeRuleProfile → VendorTypeRuleProfileInput
profile_input p = record {
  vendor_type_id = p.vendor_type_id;
  name = p.name;
  requirements = map coverage_input p.requirements;
}

abbrev pub ruleset_input : RulesetV1 → RulesetV1Input
ruleset_input r = record {
  schema_version = rules_schema_version;
  id = r.id;
  name = r.name;
  currency = r.currency;
  vendor_types = map profile_input r.vendor_types;
}

traverse_stable :
    {I O : Type 0} (p : I → Option O) (e : O → I)
    → ((x : I) (y : O) → p x ≡ some y → p (e y) ≡ some y)
    → (xs : List I) (ys : List O) → traverse p xs ≡ some ys
    → traverse p (map e ys) ≡ some ys
unfolding traverse
traverse_stable p e h [] ys q = subst (λ ys. traverse p (map e ys) ≡ some ys) (some-inj q) refl
traverse_stable p e h (x ∷ xs) ys q =
    let (y, py, q') = >>=-eq-some (p x) _ q in
    let (zs, pz, q'') = >>=-eq-some (traverse p xs) _ q' in
    subst (λ ys. traverse p (map e ys) ≡ some ys) (some-inj q'')
      (ground (arith, h x y py, traverse_stable p e h xs zs pz))

trimmed_text_stable : (k : ℕ) (t s : Text) → trimmed_text k t ≡ some s → trimmed_text k s ≡ some s
unfolding trimmed_text
trimmed_text_stable k t s h =
    let e : trim t ≡ s = ground arith in
    subst (λ s. trimmed_text k s ≡ some s) e
      (unfold trimmed_text in (rw (trim_idem t) (ground (arith, e))))

identifier_stable : (t s : Text) → identifier t ≡ some s → identifier s ≡ some s
unfolding identifier
identifier_stable t s h =
    let (u, p, q) = >>=-eq-some (trimmed_text 128 t) _ h in
    ground (arith, trimmed_text_stable 128 t u p)

bounded_integer_stable :
    (k : ℕ) (x : JsNumber) (n : ℕ)
    → bounded_integer k x ≡ some n
    → bounded_integer k (integer (pos n)) ≡ some n
unfolding bounded_integer
bounded_integer_stable k x n h = ground arith

limit_requirement_stable :
    (x : LimitRequirementInput) (l : LimitRequirement)
    → limit_requirement x ≡ some l
    → limit_requirement (limit_input l) ≡ some l
unfolding limit_requirement money_minor
limit_requirement_stable x l h = ground arith

optional_text_stable :
    (k : ℕ) (x y : Option Text) → optional_text k x ≡ some y → optional_text k y ≡ some y
unfolding optional_text
optional_text_stable k none y h = subst (λ y. optional_text k y ≡ some y) (some-inj h) refl
optional_text_stable k (some t) y h =
    let (s, p, q) = >>=-eq-some (trimmed_text k t) _ h in
    subst (λ y. optional_text k y ≡ some y) (some-inj q) (rw (trimmed_text_stable k t s p))

endorsement_requirement_stable :
    (x : EndorsementRequirementInput) (e : EndorsementRequirement)
    → endorsement_requirement x ≡ some e
    → endorsement_requirement (endorsement_input e) ≡ some e
unfolding endorsement_requirement
endorsement_requirement_stable x e h =
    let (i, pi, h1) = >>=-eq-some (identifier x.id) _ h in
    let (f, pf, h2) = >>=-eq-some (optional_text 100 x.form_code) _ h1 in
    let (n, pn, h3) = >>=-eq-some (optional_text 300 x.name) _ h2 in
    ground (
      arith,
      identifier_stable x.id i pi,
      optional_text_stable 100 x.form_code f pf,
      optional_text_stable 300 x.name n pn,
    )

coverage_requirement_stable :
    (x : CoverageRequirementInput) (r : CoverageRequirement)
    → coverage_requirement x ≡ some r
    → coverage_requirement (coverage_input r) ≡ some r
unfolding coverage_requirement
coverage_requirement_stable x r h =
    let (i, pi, h1) = >>=-eq-some (identifier x.id) _ h in
    let (d, pd, h2) = >>=-eq-some (bounded_integer 36500 _) _ h1 in
    let (l, pl, h3) = >>=-eq-some (traverse limit_requirement _) _ h2 in
    let (e, pe, h4) = >>=-eq-some (traverse endorsement_requirement _) _ h3 in
    ground (
      arith,
      identifier_stable x.id i pi,
      bounded_integer_stable 36500 _ d pd,
      traverse_stable limit_requirement limit_input limit_requirement_stable _ l pl,
      traverse_stable endorsement_requirement endorsement_input endorsement_requirement_stable _ e
          pe,
      h4,
    )

vendor_type_rule_profile_stable :
    (x : VendorTypeRuleProfileInput) (p : VendorTypeRuleProfile)
    → vendor_type_rule_profile x ≡ some p
    → vendor_type_rule_profile (profile_input p) ≡ some p
unfolding vendor_type_rule_profile
vendor_type_rule_profile_stable x p h =
    let (i, pi, h1) = >>=-eq-some (identifier x.vendor_type_id) _ h in
    let (n, pn, h2) = >>=-eq-some (trimmed_text 200 x.name) _ h1 in
    let (r, pr, h3) = >>=-eq-some (traverse coverage_requirement x.requirements) _ h2 in
    ground (
      arith,
      identifier_stable x.vendor_type_id i pi,
      trimmed_text_stable 200 x.name n pn,
      traverse_stable coverage_requirement coverage_input coverage_requirement_stable x.requirements
          r pr,
      h3,
    )

-- A ruleset that was parsed parses to itself: identifiers and names stay as they are, every default
-- is filled in, and no check fails the second time.
pub parse_ruleset_stable :
    (x : RulesetV1Input) (r : RulesetV1)
    → parse_ruleset x ≡ some r
    → parse_ruleset (ruleset_input r) ≡ some r
unfolding parse_ruleset
parse_ruleset_stable x r h =
    let (i, pi, h1) = >>=-eq-some (identifier x.id) _ h in
    let (n, pn, h2) = >>=-eq-some (trimmed_text 200 x.name) _ h1 in
    let (v, pv, h3) = >>=-eq-some (traverse vendor_type_rule_profile x.vendor_types) _ h2 in
    ground (
      arith,
      identifier_stable x.id i pi,
      trimmed_text_stable 200 x.name n pn,
      traverse_stable vendor_type_rule_profile profile_input vendor_type_rule_profile_stable
          x.vendor_types v pv,
      text_eq_refl rules_schema_version,
      h3,
    )
