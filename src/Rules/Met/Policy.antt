-- ===== src/Rules/Met/Policy.antt =====
-- A policy whose findings are all fine meets the requirement's part about policies.
use opencoi.Base.{
  ◌≡◌, some, List, ◌∷◌, map, arith, some-inj, >>=-eq-some, Option-cases, inl, inr, All,
  All-append-left, All-append-right, All-of_map, All-imp, All-traverse, traverse, subst, sym,
}
use opencoi.Base.Int.{pos}
use opencoi.Dates.{IsoDate, add_iso_date_days}
use opencoi.Domain.{CoiPolicyFacts, CoiDocumentFacts, ComplianceFinding, RequiredPolicyField}
use opencoi.Rules.Requirement.{LimitRequirement, CoverageRequirement, Collation}
use opencoi.Rules.Period.{evaluate_policy_period}
use opencoi.Rules.Limit.{evaluate_limit}
use opencoi.Rules.Policy.{field_of, coverage_finding, field_finding, evaluate_policy}
use opencoi.Rules.Met.{IsFine, IsConfirmed, ShowsField, MeetsLimit, PolicyMeets}
use opencoi.Rules.Met.Period.{is_confirmed_sound, fine_period-CoversPeriod}
use opencoi.Rules.Met.Limit.{fine_limit-MeetsLimit}

module _ (r : CoverageRequirement) (p : CoiPolicyFacts) (document : CoiDocumentFacts) where
  fine_coverage-IsConfirmed :
      IsFine (coverage_finding r p document) → IsConfirmed document p.coverage_type
  unfolding coverage_finding
  fine_coverage-IsConfirmed h = is_confirmed_sound document p.coverage_type (ground arith)

  fine_field-ShowsField :
      (f : RequiredPolicyField) → IsFine (field_finding r p document f) → ShowsField document p f
  unfolding field_finding
  fine_field-ShowsField f h = elim (Option-cases (field_of p f)) [
    | inl e ↦ absurd (ground arith)
    | inr (x, e) ↦ (x, e, is_confirmed_sound document x (ground arith))
  ]

pub fine_policy-PolicyMeets :
    (c : Collation) (r : CoverageRequirement) (p : CoiPolicyFacts) (document : CoiDocumentFacts)
    (day : IsoDate) (fs : List ComplianceFinding)
    → evaluate_policy c r p document day ≡ some fs
    → All IsFine fs
    → PolicyMeets document day r p
unfolding evaluate_policy evaluate_policy_period
fine_policy-PolicyMeets c r p document day fs h fine =
    let (period, pe, h') = >>=-eq-some (evaluate_policy_period r p document day) _ h in
    let (limits, le, h'') = >>=-eq-some (traverse _ r.minimum_limits) _ h' in
    let (through, te, pe') =
      >>=-eq-some (add_iso_date_days day (pos r.minimum_days_remaining)) _ pe in
    let all = subst (All IsFine) (sym (some-inj h'')) fine in
    let fields = map (field_finding r p document) r.required_policy_fields in
    let later = All-append-right IsFine fields (period ∷ limits) all.1 in
    record {
      through = through;
      through_date = te;
      type_confirmed = fine_coverage-IsConfirmed r p document all.0;
      fields =
          All-imp _ (ShowsField document p) (fine_field-ShowsField r p document)
            r.required_policy_fields
            (All-of_map IsFine (field_finding r p document) r.required_policy_fields
              (All-append-left IsFine fields (period ∷ limits) all.1));
      in_force =
          fine_period-CoversPeriod document p day through r
            (subst IsFine (sym (some-inj pe')) later.0);
      limits =
          All-traverse (λ (l : LimitRequirement). evaluate_limit c r l p document day) IsFine
            (MeetsLimit document p day through)
            (λ l f e k. fine_limit-MeetsLimit c r l p document day through f te e k)
            r.minimum_limits limits le later.1;
    }
