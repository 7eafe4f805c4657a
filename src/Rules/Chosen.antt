-- ===== src/Rules/Chosen.antt =====
-- shared/rules.ts: which policy's findings `evaluateCoverageRequirement` reports.
use mathlib.Core.List.{Memᴰ}
use opencoi.Base.{
  ◌≤◌, ◌≡◌, ◌≢◌, Ordering, some, List, [], ◌∷◌, ◌++◌, arith, some-inj, >>=-eq-some, Option-cases,
  inl, inr, All, All-Memᴰ, All-of_forall, traverse, traverse-All, All-traverse, subst, sym, ◌∙◌,
  head?,
}
use opencoi.Base.Sort.{sort}
use opencoi.Base.Sort.Best.{All-best, head?-sort, best-NotAfter}
use opencoi.Dates.{IsoDate}
use opencoi.Domain.{is_fail, is_unknown, CoiPolicyFacts, CoiDocumentFacts, ComplianceFinding}
use opencoi.Rules.Requirement.{required, CoverageRequirement, Collation}
use opencoi.Rules.Policy.{evaluate_policy}
use opencoi.Rules.Endorsement.{evaluate_endorsements}
use opencoi.Rules.Candidate.{CandidateEvaluation, status_counts, compare_candidate_evaluations}
use opencoi.Rules.Candidate.Best.{
  candidates_asym, candidates_trans, count_if, status_counts_lem, best_counts,
}
use opencoi.Rules.Evaluate.{
  candidate_policies, evaluate_candidate, findings_of_best, evaluate_candidates,
  evaluate_coverage_requirement,
}
use opencoi.Rules.Origin.{
  IsCandidate, IsEvaluated, candidate_policies-IsCandidate, evaluate_candidate-IsEvaluated,
  IsCandidate-Memᴰ,
}

-- The findings `fs` are those of a policy of the document that does no worse than `gs`, and then
-- the endorsements.
pub record IsBest (c : Collation) (document : CoiDocumentFacts) (day : IsoDate)
    (r : CoverageRequirement) (fs gs : List ComplianceFinding) : Type 0 where
  pub policy : CoiPolicyFacts
  pub on_document : Memᴰ policy document.policies
  pub right_type : policy.coverage_type.value ≡ r.coverage_type
  pub chosen : List ComplianceFinding
  pub evaluated : evaluate_policy c r policy document day ≡ some chosen
  pub reported : fs ≡ chosen ++ evaluate_endorsements c r document
  pub fewest_fails : count_if is_fail chosen ≤ count_if is_fail gs
  pub all_pass :
      count_if is_fail gs ≡ 0
      → count_if is_unknown gs ≡ 0
      → (count_if is_fail chosen ≡ 0) × (count_if is_unknown chosen ≡ 0)

module _ (c : Collation) (document : CoiDocumentFacts) (day : IsoDate) (r : CoverageRequirement)
    (p : CoiPolicyFacts) (gs : List ComplianceFinding)
    (g : evaluate_policy c r p document day ≡ some gs) where
  -- The evaluation of `p` is among the evaluations.
  evaluation_of_p :
      (ps : List CoiPolicyFacts) (es : List CandidateEvaluation)
      → Memᴰ p ps
      → traverse (evaluate_candidate c r document day) ps ≡ some es
      → (e : CandidateEvaluation) × Memᴰ e es × (e.findings ≡ gs)
  unfolding evaluate_candidate
  evaluation_of_p ps es m h =
      let (e, q, k) =
        All-Memᴰ
          (λ (x : CoiPolicyFacts).
            (e : CandidateEvaluation) × (evaluate_candidate c r document day x ≡ some e)
            × Memᴰ e es)
          ps
          (All-traverse (evaluate_candidate c r document day) (λ e. Memᴰ e es) _
            (λ x e q k. (e, q, k)) ps es h (All-of_forall (λ e. Memᴰ e es) es (λ e k. k)))
          m in
      (e, k, sym (ground (arith, q, g)))

  better :
      (s e : CandidateEvaluation)
      → compare_candidate_evaluations c s e ≢ Ordering.gt
      → (count_if is_fail s.findings ≤ count_if is_fail e.findings)
        × (count_if is_fail e.findings ≡ 0
            → count_if is_unknown e.findings ≡ 0
            → (count_if is_fail s.findings ≡ 0) × (count_if is_unknown s.findings ≡ 0))
  unfolding compare_candidate_evaluations
  better s e h =
      let (few, none_open) =
        best_counts (status_counts s.findings) (status_counts e.findings)
          (c.locale_compare s.policy_id e.policy_id) h in
      let (sf, su) = status_counts_lem s.findings in
      let (ef, eu) = status_counts_lem e.findings in
      (
        omega (arith, few, sf, ef),
        λ f u. (omega (arith, few, sf, ef, f), sym su ∙ none_open (ef ∙ f) (eu ∙ u)),
      )

  chosen_of_evaluations :
      (e0 : CandidateEvaluation) (es : List CandidateEvaluation)
      → All (IsEvaluated c document day r) (e0 ∷ es)
      → (e : CandidateEvaluation) × Memᴰ e (e0 ∷ es) × (e.findings ≡ gs)
      → IsBest c document day r (findings_of_best c r document (e0 ∷ es)) gs
  unfolding findings_of_best
  chosen_of_evaluations e0 es all (e, m, q) =
      elim (Option-cases (head? (sort (compare_candidate_evaluations c) (e0 ∷ es)))) [
        | inl n ↦ absurd (head?-sort (compare_candidate_evaluations c) e0 es n)
        | inr (s, k) ↦
            let o =
              All-best (compare_candidate_evaluations c) (IsEvaluated c document day r) (e0 ∷ es)
                all k in
            let (few, settled) = better s e (
              All-Memᴰ (λ e. compare_candidate_evaluations c s e ≢ Ordering.gt) (e0 ∷ es)
                (best-NotAfter (compare_candidate_evaluations c) (candidates_asym c)
                  (candidates_trans c) (e0 ∷ es) k)
                m) in
            record {
              policy = o.policy;
              on_document = o.candidate.on_document;
              right_type = o.candidate.right_type;
              chosen = s.findings;
              evaluated = o.evaluated;
              reported = rw (k, findings_of_best);
              fewest_fails = rw (← q) few;
              all_pass = rw (← q) settled;
            }
      ]

  chosen_of_traverse :
      (ps : List CoiPolicyFacts) (es : List CandidateEvaluation)
      → All (IsEvaluated c document day r) es
      → (e : CandidateEvaluation) × Memᴰ e es × (e.findings ≡ gs)
      → IsBest c document day r (findings_of_best c r document es) gs
  chosen_of_traverse ps [] all (e, m, q) = elim m [ ]
  chosen_of_traverse ps (e0 ∷ es) all m = chosen_of_evaluations e0 es all m

  chosen_of_candidates :
      (ps : List CoiPolicyFacts) (fs : List ComplianceFinding)
      → All (IsCandidate document r) ps
      → Memᴰ p ps
      → evaluate_candidates c r document day ps ≡ some fs
      → IsBest c document day r fs gs
  unfolding evaluate_candidates
  chosen_of_candidates [] fs all m h = elim m [ ]
  chosen_of_candidates (x ∷ ps) fs all m h =
      let (es, ee, h') =
        >>=-eq-some (traverse (evaluate_candidate c r document day) (x ∷ ps)) _ h in
      subst (λ fs. IsBest c document day r fs gs) (some-inj h')
        (chosen_of_traverse ps es
          (traverse-All (evaluate_candidate c r document day) (IsCandidate document r)
            (IsEvaluated c document day r) (evaluate_candidate-IsEvaluated c document day r)
            (x ∷ ps) es all ee)
          (evaluation_of_p (x ∷ ps) es m ee))

  -- The findings of an applicable requirement are those of one policy of the document and the
  -- endorsements, and no policy with the coverage does better: `p` has no fewer failures, and if
  -- `p` has neither failures nor unknowns, then the reported policy has none.
  pub reported-IsBest :
      (fs : List ComplianceFinding)
      → r.applicability ≡ required
      → Memᴰ p document.policies
      → p.coverage_type.value ≡ r.coverage_type
      → evaluate_coverage_requirement c document day r ≡ some fs
      → IsBest c document day r fs gs
  unfolding evaluate_coverage_requirement
  reported-IsBest fs needed m t h =
      chosen_of_candidates (candidate_policies c r document) fs
        (candidate_policies-IsCandidate c r document)
        (IsCandidate-Memᴰ c r document p (record { on_document = m; right_type = t }))
        (rw (needed, evaluate_coverage_requirement) at h)
