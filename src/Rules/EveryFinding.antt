-- ===== src/Rules/EveryFinding.antt =====
-- shared/rules.ts: what holds of the result of each check holds of every finding of an evaluation.
use opencoi.Base.{
  ◌≡◌, refl, Option, none, some, List, [], ◌∷◌, ◌++◌, map, >>=-eq-some, some-inj, All, All-append,
  All-map, traverse, traverse-All, All-unit, head?, subst, Text,
}
use opencoi.Base.Sort.{sort}
use opencoi.Base.Sort.Best.{All-best}
use opencoi.Dates.{IsoDate, iso_date}
use opencoi.Domain.{
  CoiPolicyFacts, CoiDocumentFacts, ComplianceFinding, RequiredPolicyField, ComplianceException,
  DocumentComplianceEvaluation, derive_document_compliance_label,
}
use opencoi.Rules.Requirement.{
  Applicability, required, LimitRequirement, EndorsementRequirement, CoverageRequirement, Collation,
  VendorTypeRuleProfile, RulesetV1,
}
use opencoi.Rules.Policy.{coverage_finding, field_finding, evaluate_policy}
use opencoi.Rules.Period.{evaluate_policy_period}
use opencoi.Rules.Limit.{evaluate_limit}
use opencoi.Rules.Endorsement.{evaluate_endorsement, evaluate_endorsements}
use opencoi.Rules.Candidate.{CandidateEvaluation, compare_candidate_evaluations}
use opencoi.Rules.Evaluate.{
  candidate_policies, evaluate_candidate, findings_of_best, evaluate_candidates,
  no_candidate_finding, not_applicable_finding, evaluate_coverage_requirement,
  evaluate_requirements, evaluate_profile, profile_not_found, profile_of, evaluate_ruleset,
}

module _ (collation : Collation) (document : CoiDocumentFacts) (day : IsoDate)
    (P : CoverageRequirement → ComplianceFinding → Type 0) where
  pub record EveryPolicyCheck : Type 0 where
    pub coverage :
        (r : CoverageRequirement) (p : CoiPolicyFacts) → P r (coverage_finding r p document)
    pub fields :
        (r : CoverageRequirement) (p : CoiPolicyFacts) (f : RequiredPolicyField)
        → P r (field_finding r p document f)
    pub periods :
        (r : CoverageRequirement) (p : CoiPolicyFacts) (f : ComplianceFinding)
        → evaluate_policy_period r p document day ≡ some f
        → P r f
    pub limits :
        (r : CoverageRequirement) (l : LimitRequirement) (p : CoiPolicyFacts)
        (f : ComplianceFinding)
        → evaluate_limit collation r l p document day ≡ some f
        → P r f

  pub record EveryCheck : Type 0 where
    pub policies : EveryPolicyCheck
    pub endorsements :
        (r : CoverageRequirement) (e : EndorsementRequirement)
        → P r (evaluate_endorsement collation r document e)
    pub no_candidate : (r : CoverageRequirement) → P r (no_candidate_finding r document)
    pub skipped : (r : CoverageRequirement) → P r (not_applicable_finding r)

module _ (collation : Collation) (document : CoiDocumentFacts) (day : IsoDate)
    (P : CoverageRequirement → ComplianceFinding → Type 0) (r : CoverageRequirement) where
  pub evaluate_policy-All :
      EveryPolicyCheck collation document day P
      → (p : CoiPolicyFacts) (fs : List ComplianceFinding)
      → evaluate_policy collation r p document day ≡ some fs
      → All (P r) fs
  unfolding evaluate_policy
  evaluate_policy-All h p fs e =
      let (period, pe, e') = >>=-eq-some (evaluate_policy_period r p document day) _ e in
      let (limits, le, e'') = >>=-eq-some (traverse _ r.minimum_limits) _ e' in
      subst (All (P r)) (some-inj e'') (
        h.coverage r p,
        All-append (P r) (map (field_finding r p document) r.required_policy_fields)
            (period ∷ limits)
            (All-map (P r) (field_finding r p document) (h.fields r p) r.required_policy_fields)
            (
              h.periods r p period pe,
              traverse-All (λ (l : LimitRequirement). evaluate_limit collation r l p document day)
                  (λ _. Unit {0}) (P r) (λ l f _. h.limits r l p f) r.minimum_limits limits
                  (All-unit r.minimum_limits) le,
            ),
      )

  pub evaluate_candidate-All :
      EveryPolicyCheck collation document day P
      → (p : CoiPolicyFacts) (e : CandidateEvaluation)
      → evaluate_candidate collation r document day p ≡ some e
      → All (P r) e.findings
  unfolding evaluate_candidate
  evaluate_candidate-All h p e q =
      let (fs, fe, q') = >>=-eq-some (evaluate_policy collation r p document day) _ q in
      subst (λ (c : CandidateEvaluation). All (P r) c.findings) (some-inj q')
        (evaluate_policy-All h p fs fe)

  findings_of_best-All :
      ((e : EndorsementRequirement) → P r (evaluate_endorsement collation r document e))
      → (es : List CandidateEvaluation) → All (λ (c : CandidateEvaluation). All (P r) c.findings) es
      → All (P r) (findings_of_best collation r document es)
  unfolding findings_of_best evaluate_endorsements
  findings_of_best-All h es all =
      go (head? (sort (compare_candidate_evaluations collation) es)) refl
    where
      go :
          (o : Option CandidateEvaluation)
          → head? (sort (compare_candidate_evaluations collation) es) ≡ o
          → All (P r) (elim o [
            | none ↦ []
            | some selected ↦ selected.findings ++ evaluate_endorsements collation r document
          ])
      go none q = tt
      go (some s) q =
          All-append (P r) s.findings (evaluate_endorsements collation r document)
            (All-best (compare_candidate_evaluations collation)
              (λ (c : CandidateEvaluation). All (P r) c.findings) es all q)
            (All-map (P r) (evaluate_endorsement collation r document) h r.endorsements)

  evaluate_candidates-All :
      EveryCheck collation document day P
      → (ps : List CoiPolicyFacts) (fs : List ComplianceFinding)
      → evaluate_candidates collation r document day ps ≡ some fs
      → All (P r) fs
  unfolding evaluate_candidates
  evaluate_candidates-All h [] fs e = subst (All (P r)) (some-inj e) (h.no_candidate r, tt)
  evaluate_candidates-All h (p ∷ ps) fs e =
      let (es, ee, e') =
        >>=-eq-some (traverse (evaluate_candidate collation r document day) (p ∷ ps)) _ e in
      subst (All (P r)) (some-inj e') (
        findings_of_best-All (h.endorsements r) es (
          traverse-All (evaluate_candidate collation r document day) (λ _. Unit {0})
            (λ (c : CandidateEvaluation). All (P r) c.findings)
            (λ p e _. evaluate_candidate-All h.policies p e) (p ∷ ps) es (All-unit (p ∷ ps)) ee))

  pub evaluate_coverage_requirement-All :
      EveryCheck collation document day P
      → (fs : List ComplianceFinding)
      → evaluate_coverage_requirement collation document day r ≡ some fs
      → All (P r) fs
  unfolding evaluate_coverage_requirement
  evaluate_coverage_requirement-All h fs e = go r.applicability e
    where
      go :
          (a : Applicability)
          → elim a [
            | required ↦
                evaluate_candidates collation r document day
                  (candidate_policies collation r document)
            | Applicability.not_applicable ↦ some (not_applicable_finding r ∷ [])
          ]
            ≡ some fs
          → All (P r) fs
      go required q = evaluate_candidates-All h (candidate_policies collation r document) fs q
      go Applicability.not_applicable q = subst (All (P r)) (some-inj q) (h.skipped r, tt)

module _ (collation : Collation) (document : CoiDocumentFacts) (day : IsoDate)
    (Q : ComplianceFinding → Type 0) (h : EveryCheck collation document day (λ _ f. Q f)) where
  evaluate_requirements-All :
      (rs : List CoverageRequirement) (fs : List ComplianceFinding)
      → evaluate_requirements collation document day rs ≡ some fs
      → All Q fs
  unfolding evaluate_requirements
  evaluate_requirements-All [] fs e = subst (All Q) (some-inj e) tt
  evaluate_requirements-All (r ∷ rs) fs e =
      let (gs, ge, e') = >>=-eq-some (evaluate_coverage_requirement collation document day r) _ e in
      let (hs, he, e'') = >>=-eq-some (evaluate_requirements collation document day rs) _ e' in
      subst (All Q) (some-inj e'') (
        All-append Q gs hs
          (evaluate_coverage_requirement-All collation document day (λ _ f. Q f) r h gs ge)
          (evaluate_requirements-All rs hs he))

  -- A property of every check, and of the missing profile, holds of all findings.
  pub evaluate_profile-All :
      (profile : Option VendorTypeRuleProfile) (vendor_type_id : Text) (fs : List ComplianceFinding)
      → Q (profile_not_found vendor_type_id)
      → evaluate_profile collation profile vendor_type_id document day ≡ some fs
      → All Q fs
  unfolding evaluate_profile
  evaluate_profile-All none v fs q e = subst (All Q) (some-inj e) (q, tt)
  evaluate_profile-All (some profile) v fs q e = evaluate_requirements-All profile.requirements fs e

-- An evaluation comes from the findings of a profile at a parsed date.
pub evaluate_ruleset-eq-some :
    (c : Collation) (rules : RulesetV1) (document : CoiDocumentFacts) (v d : Text)
    (xs : List ComplianceException) (e : DocumentComplianceEvaluation)
    → evaluate_ruleset c rules document v d xs ≡ some e
    → (day : IsoDate) × (iso_date d ≡ some day)
      × (evaluate_profile c (profile_of rules v) v document day ≡ some e.findings)
      × (e.label ≡ derive_document_compliance_label e.findings)
unfolding evaluate_ruleset
evaluate_ruleset-eq-some c rules document v d xs e h =
    let (day, de, h') = >>=-eq-some (iso_date d) _ h in
    let (fs, fe, h'') = >>=-eq-some (evaluate_profile c (profile_of rules v) v document day) _ h' in
    let q = some-inj h'' in
    subst
      (λ (x : DocumentComplianceEvaluation).
        (day : IsoDate) × (iso_date d ≡ some day)
        × (evaluate_profile c (profile_of rules v) v document day ≡ some x.findings)
        × (x.label ≡ derive_document_compliance_label x.findings))
      q (day, de, fe, refl)
