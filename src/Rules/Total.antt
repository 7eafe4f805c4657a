-- ===== src/Rules/Total.antt =====
-- shared/rules.ts: an evaluation throws only at the ends of the calendar.
use opencoi.Base.{
  ◌≤◌, ◌<◌, ◌≡◌, refl, Option, none, some, List, [], ◌∷◌, ◌++◌, arith, All, All-of_forall,
  traverse_returns, All-imp, All-Memᴰ, find-eq-some, text_eq, Option-cases, inl, inr, Text,
}
use opencoi.Base.Int.{pos}
use opencoi.Dates.{IsoDate, iso_date, add_iso_date_days}
use opencoi.Dates.Calendar.{IsCalendarDate}
use opencoi.Dates.Parse.{iso_date_sound}
use opencoi.Dates.Add.{add_days_returns}
use opencoi.Domain.{
  CoiPolicyFacts, CoiDocumentFacts, ComplianceFinding, ComplianceException,
  DocumentComplianceEvaluation,
}
use opencoi.Rules.Requirement.{
  Applicability, required, LimitRequirement, CoverageRequirement, VendorTypeRuleProfile, RulesetV1,
  Collation,
}
use opencoi.Rules.Period.{evaluate_policy_period}
use opencoi.Rules.Limit.{evaluate_limit}
use opencoi.Rules.Policy.{evaluate_policy}
use opencoi.Rules.Candidate.{CandidateEvaluation}
use opencoi.Rules.Evaluate.{
  candidate_policies, evaluate_candidate, evaluate_candidates, evaluate_coverage_requirement,
  evaluate_requirements, evaluate_profile, profile_of, evaluate_ruleset, not_applicable_finding,
}

-- The through-date of the requirement exists.
abbrev pub HasThroughDate : IsoDate → CoverageRequirement → Type 0
HasThroughDate day r =
    (through : IsoDate) × (add_iso_date_days day (pos r.minimum_days_remaining) ≡ some through)

module _ (c : Collation) (document : CoiDocumentFacts) (day : IsoDate) (r : CoverageRequirement)
    (h : HasThroughDate day r) where
  evaluate_limit_returns :
      (l : LimitRequirement) (p : CoiPolicyFacts)
      → (f : ComplianceFinding) × (evaluate_limit c r l p document day ≡ some f)
  unfolding evaluate_limit
  evaluate_limit_returns l p = elim (Option-cases (evaluate_limit c r l p document day)) [
    | inl e ↦ absurd (ground (arith, h.1))
    | inr f ↦ f
  ]

  evaluate_policy_returns :
      (p : CoiPolicyFacts)
      → (fs : List ComplianceFinding) × (evaluate_policy c r p document day ≡ some fs)
  unfolding evaluate_policy evaluate_policy_period
  evaluate_policy_returns p =
      let (ls, e) =
        traverse_returns (λ (l : LimitRequirement). evaluate_limit c r l p document day)
          r.minimum_limits (All-of_forall _ _ (λ l _. evaluate_limit_returns l p)) in
      rw (h.1, e) (_, refl)

  evaluate_candidate_returns :
      (p : CoiPolicyFacts)
      → (e : CandidateEvaluation) × (evaluate_candidate c r document day p ≡ some e)
  unfolding evaluate_candidate
  evaluate_candidate_returns p = rw ((evaluate_policy_returns p).1) (_, refl)

  evaluate_candidates_returns :
      (ps : List CoiPolicyFacts)
      → (fs : List ComplianceFinding) × (evaluate_candidates c r document day ps ≡ some fs)
  unfolding evaluate_candidates
  evaluate_candidates_returns [] = (_, refl)
  evaluate_candidates_returns (p ∷ ps) =
      let (es, e) =
        traverse_returns (evaluate_candidate c r document day) (p ∷ ps)
          (All-of_forall _ (p ∷ ps) (λ q _. evaluate_candidate_returns q)) in
      rw e (_, refl)

  evaluate_coverage_requirement_returns :
      (fs : List ComplianceFinding) × (evaluate_coverage_requirement c document day r ≡ some fs)
  unfolding evaluate_coverage_requirement
  evaluate_coverage_requirement_returns = go r.applicability
    where
      go :
          (a : Applicability)
          → (fs : List ComplianceFinding) × (elim a [
            | required ↦ evaluate_candidates c r document day (candidate_policies c r document)
            | Applicability.not_applicable ↦ some (not_applicable_finding r ∷ [])
          ]
              ≡ some fs)
      go required = evaluate_candidates_returns (candidate_policies c r document)
      go Applicability.not_applicable = (_, refl)

module _ (c : Collation) (document : CoiDocumentFacts) (day : IsoDate) where
  evaluate_requirements_returns :
      (rs : List CoverageRequirement)
      → All (HasThroughDate day) rs
      → (fs : List ComplianceFinding) × (evaluate_requirements c document day rs ≡ some fs)
  unfolding evaluate_requirements
  evaluate_requirements_returns [] h = ([], refl)
  evaluate_requirements_returns (r ∷ rs) h =
      let (gs, p) = evaluate_coverage_requirement_returns c document day r h.0 in
      let (hs, q) = evaluate_requirements_returns rs h.1 in (gs ++ hs, rw (p, q))

  evaluate_profile_returns :
      (profile : Option VendorTypeRuleProfile) (v : Text)
      → ((x : VendorTypeRuleProfile) → profile ≡ some x → All (HasThroughDate day) x.requirements)
      → (fs : List ComplianceFinding) × (evaluate_profile c profile v document day ≡ some fs)
  unfolding evaluate_profile
  evaluate_profile_returns none v h = (_, refl)
  evaluate_profile_returns (some x) v h = evaluate_requirements_returns x.requirements (h x refl)

-- The days remaining that the schema of a ruleset allows.
abbrev pub HasBoundedDays : VendorTypeRuleProfile → Type 0
HasBoundedDays x =
    All (λ (r : CoverageRequirement). r.minimum_days_remaining ≤ 36500) x.requirements

through_dates :
    (day : IsoDate)
    → IsCalendarDate day
    → day.year < 9900
    → (rs : List CoverageRequirement)
    → All (λ (r : CoverageRequirement). r.minimum_days_remaining ≤ 36500) rs
    → All (HasThroughDate day) rs
through_dates day cal early rs =
    All-imp _ (HasThroughDate day)
      (λ r k.
        add_days_returns day cal (pos r.minimum_days_remaining) r.minimum_days_remaining refl k
          early)
      rs

-- With an evaluation date of the calendar before year 9900, and days remaining of at most 36,500 in
-- every profile, the evaluation of any document returns: it does not throw.
pub evaluate_ruleset_returns :
    (c : Collation) (rules : RulesetV1) (document : CoiDocumentFacts) (v d : Text)
    (xs : List ComplianceException) (day : IsoDate)
    → iso_date d ≡ some day
    → day.year < 9900
    → All HasBoundedDays rules.vendor_types
    → (e : DocumentComplianceEvaluation) × (evaluate_ruleset c rules document v d xs ≡ some e)
unfolding evaluate_ruleset
evaluate_ruleset_returns c rules document v d xs day de early bounded =
    let (cal, _) = iso_date_sound d day de in
    let (fs, p) = evaluate_profile_returns c document day (profile_of rules v) v (λ x q.
      through_dates day cal early x.requirements (
        All-Memᴰ HasBoundedDays rules.vendor_types bounded (
          unfold profile_of in
          (find-eq-some (λ (p : VendorTypeRuleProfile). text_eq p.vendor_type_id v)
            rules.vendor_types q).0))) in
    rw (de, p) (_, refl)
