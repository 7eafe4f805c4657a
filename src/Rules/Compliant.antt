-- ===== src/Rules/Compliant.antt =====
-- shared/rules.ts: a document that is labelled compliant meets every requirement of its profile.
use opencoi.Base.{
  ◌≡◌, true, false, none, some, List, [], ◌∷◌, ◌++◌, arith, some-inj, >>=-eq-some, Option-cases,
  inl, inr, All, All-append-left, All-append-right, All-of_map, All-imp, All-of_forall, traverse,
  traverse-All, subst, sym, ◌∙◌, head?, Text,
}
use opencoi.Base.Sort.{sort}
use opencoi.Base.Sort.Best.{All-best, head?-sort}
use opencoi.Dates.{IsoDate, iso_date}
use opencoi.Domain.{
  fail, unknown, is_fail, is_unknown, CoiPolicyFacts, CoiDocumentFacts, ComplianceFinding,
  ComplianceException, DocumentComplianceEvaluation, document_compliant,
}
use opencoi.Domain.Label.{Lacks, label-iff_Means}
use opencoi.Rules.Requirement.{
  required, CoverageRequirement, VendorTypeRuleProfile, RulesetV1, Collation,
}
use opencoi.Rules.Endorsement.{evaluate_endorsement, evaluate_endorsements}
use opencoi.Rules.Candidate.{CandidateEvaluation, compare_candidate_evaluations}
use opencoi.Rules.Evaluate.{
  candidate_policies, evaluate_candidate, findings_of_best, evaluate_candidates,
  no_candidate_finding, profile_not_found, evaluate_coverage_requirement, evaluate_requirements,
  evaluate_profile, profile_of, evaluate_ruleset,
}
use opencoi.Rules.EveryFinding.{evaluate_ruleset-eq-some}
use opencoi.Rules.Origin.{
  IsCandidate, IsEvaluated, candidate_policies-IsCandidate, evaluate_candidate-IsEvaluated,
}
use opencoi.Rules.Met.{IsFine, Meets}
use opencoi.Rules.Met.Policy.{fine_policy-PolicyMeets}
use opencoi.Rules.Met.Endorsement.{fine_endorsement-ShowsEndorsement}

module _ (c : Collation) (document : CoiDocumentFacts) (day : IsoDate)
    (r : CoverageRequirement) where
  fine_best-Meets :
      (s : CandidateEvaluation)
      → IsEvaluated c document day r s
      → All IsFine (s.findings ++ evaluate_endorsements c r document)
      → Meets document day r
  unfolding evaluate_endorsements
  fine_best-Meets s e fine = record {
    policy = e.policy;
    on_document = e.candidate.on_document;
    right_type = e.candidate.right_type;
    policy_meets =
        fine_policy-PolicyMeets c r e.policy document day s.findings e.evaluated
          (All-append-left IsFine s.findings _ fine);
    endorsements = All-imp _ _ (fine_endorsement-ShowsEndorsement c r document) r.endorsements (
        All-of_map IsFine (evaluate_endorsement c r document) r.endorsements
          (All-append-right IsFine s.findings _ fine));
  }

  fine_findings_of_best-Meets :
      (e : CandidateEvaluation) (es : List CandidateEvaluation)
      → All (IsEvaluated c document day r) (e ∷ es)
      → All IsFine (findings_of_best c r document (e ∷ es))
      → Meets document day r
  unfolding findings_of_best
  fine_findings_of_best-Meets e es all fine =
      elim (Option-cases (head? (sort (compare_candidate_evaluations c) (e ∷ es)))) [
        | inl n ↦ absurd (head?-sort (compare_candidate_evaluations c) e es n)
        | inr (s, q) ↦
            fine_best-Meets s
              (All-best (compare_candidate_evaluations c) (IsEvaluated c document day r) (e ∷ es)
                all q)
              (rw (q, findings_of_best) at fine)
      ]

  fine_evaluations :
      (p : CoiPolicyFacts) (ps : List CoiPolicyFacts) (es : List CandidateEvaluation)
      → traverse (evaluate_candidate c r document day) (p ∷ ps) ≡ some es
      → All (IsEvaluated c document day r) es
      → All IsFine (findings_of_best c r document es)
      → Meets document day r
  unfolding traverse
  fine_evaluations p ps [] h all fine = ground arith
  fine_evaluations p ps (e ∷ es) h all fine = fine_findings_of_best-Meets e es all fine

  not-IsFine_no_candidate : ¬ IsFine (no_candidate_finding r document)
  unfolding no_candidate_finding
  not-IsFine_no_candidate h = ground arith

  fine_candidates-Meets :
      (ps : List CoiPolicyFacts) (fs : List ComplianceFinding)
      → All (IsCandidate document r) ps
      → evaluate_candidates c r document day ps ≡ some fs
      → All IsFine fs
      → Meets document day r
  unfolding evaluate_candidates
  fine_candidates-Meets [] fs k h fine =
      absurd (not-IsFine_no_candidate (subst (All IsFine) (sym (some-inj h)) fine).0)
  fine_candidates-Meets (p ∷ ps) fs k h fine =
      let (es, ee, h') =
        >>=-eq-some (traverse (evaluate_candidate c r document day) (p ∷ ps)) _ h in
      fine_evaluations p ps es ee
        (traverse-All (evaluate_candidate c r document day) (IsCandidate document r)
          (IsEvaluated c document day r) (evaluate_candidate-IsEvaluated c document day r) (p ∷ ps)
          es k ee)
        (subst (All IsFine) (sym (some-inj h')) fine)

  pub fine_requirement-Meets :
      (fs : List ComplianceFinding)
      → evaluate_coverage_requirement c document day r ≡ some fs
      → All IsFine fs
      → r.applicability ≡ required
      → Meets document day r
  unfolding evaluate_coverage_requirement
  fine_requirement-Meets fs h fine needed =
      fine_candidates-Meets (candidate_policies c r document) fs
        (candidate_policies-IsCandidate c r document)
        (rw (needed, evaluate_coverage_requirement) at h) fine

-- Every requirement of a profile that applies is met.
abbrev pub MeetsAll : CoiDocumentFacts → IsoDate → List CoverageRequirement → Type 0
MeetsAll document day rs =
    All (λ (r : CoverageRequirement). r.applicability ≡ required → Meets document day r) rs

fine_requirements-MeetsAll :
    (c : Collation) (document : CoiDocumentFacts) (day : IsoDate) (rs : List CoverageRequirement)
    (fs : List ComplianceFinding)
    → evaluate_requirements c document day rs ≡ some fs
    → All IsFine fs
    → MeetsAll document day rs
unfolding evaluate_requirements
fine_requirements-MeetsAll c document day [] fs h fine = tt
fine_requirements-MeetsAll c document day (r ∷ rs) fs h fine =
    let (gs, ge, h') = >>=-eq-some (evaluate_coverage_requirement c document day r) _ h in
    let (hs, he, h'') = >>=-eq-some (evaluate_requirements c document day rs) _ h' in
    let all = subst (All IsFine) (sym (some-inj h'')) fine in
    (
      fine_requirement-Meets c document day r gs ge (All-append-left IsFine gs hs all),
      fine_requirements-MeetsAll c document day rs hs he (All-append-right IsFine gs hs all),
    )

is_fail_of_ne : (f : ComplianceFinding) → ¬ (f.status ≡ fail) → is_fail f.status ≡ false
is_fail_of_ne f h = ground arith

is_unknown_of_ne : (f : ComplianceFinding) → ¬ (f.status ≡ unknown) → is_unknown f.status ≡ false
is_unknown_of_ne f h = ground arith

not_fine_profile_not_found :
    (c : Collation) (document : CoiDocumentFacts) (day : IsoDate) (v : Text)
    (fs : List ComplianceFinding)
    → evaluate_profile c none v document day ≡ some fs
    → All IsFine fs
    → ⊥
unfolding evaluate_profile profile_not_found
not_fine_profile_not_found c document day v fs h fine =
    not_unknown (subst (All IsFine) (sym (some-inj h)) fine).0.no_unknown
  where
    not_unknown : true ≡ false → ⊥
    not_unknown e = cc

IsFine-of_Lacks : (fs : List ComplianceFinding) → Lacks fail fs → Lacks unknown fs → All IsFine fs
IsFine-of_Lacks fs nf nu =
    All-of_forall IsFine fs (λ f m. record {
      no_fail = is_fail_of_ne f (nf f m);
      no_unknown = is_unknown_of_ne f (nu f m);
    })

-- If a document is labelled compliant, then a profile stands for the vendor type, the evaluation
-- date is a calendar date, and for each requirement of the profile that applies one policy of the
-- document has the coverage type, confirmed by a reviewer, with every required field confirmed, a
-- confirmed period that holds the evaluation date and the days remaining, and every minimum limit
-- confirmed and reached, by itself or with a confirmed umbrella policy in force; and each applicable
-- endorsement has confirmed matching evidence of the required strength.
pub compliant-MeetsAll :
    (c : Collation) (rules : RulesetV1) (document : CoiDocumentFacts) (v d : Text)
    (xs : List ComplianceException) (e : DocumentComplianceEvaluation)
    → evaluate_ruleset c rules document v d xs ≡ some e
    → e.label ≡ document_compliant
    → (profile : VendorTypeRuleProfile) × (day : IsoDate) × (profile_of rules v ≡ some profile)
      × (iso_date d ≡ some day)
      × MeetsAll document day profile.requirements
compliant-MeetsAll c rules document v d xs e h l =
    let (day, de, fe, le) = evaluate_ruleset-eq-some c rules document v d xs e h in
    let (nf, nu, _) = (label-iff_Means e.findings document_compliant).0 (sym le ∙ l) in
    let fine = IsFine-of_Lacks e.findings nf nu in
    elim (Option-cases (profile_of rules v)) [
      | inl n ↦ absurd (not_fine_profile_not_found c document day v e.findings (rw n at fe) fine)
      | inr (profile, q) ↦ (
        profile,
        day,
        q,
        de,
        fine_requirements-MeetsAll c document day profile.requirements e.findings
            (unfold evaluate_profile in (rw (q, evaluate_profile) at fe)) fine,
      )
    ]
