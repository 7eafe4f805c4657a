-- ===== src/Rules/Origin.antt =====
-- Where the candidates of a coverage requirement come from: policies of the document.
use mathlib.Core.List.{Memᴰ}
use mathlib.Core.Bool.{decide, decide_iff}
use opencoi.Base.{
  Ordering, ◌≡◌, some, List, some-inj, >>=-eq-some, All, All-of_forall, All-Memᴰ, subst,
  Memᴰ-filter, Memᴰ_of_filter,
}
use opencoi.Base.Sort.{sort}
use opencoi.Base.Sort.Best.{All-sort, All-of_sort}
use opencoi.Dates.{IsoDate}
use opencoi.Domain.{CoverageType-discrete, CoiPolicyFacts, CoiDocumentFacts}
use opencoi.Rules.Requirement.{CoverageRequirement, Collation}
use opencoi.Rules.Policy.{evaluate_policy}
use opencoi.Rules.Candidate.{CandidateEvaluation}
use opencoi.Rules.Evaluate.{candidate_policies, evaluate_candidate}

-- A policy of the document with the coverage that the requirement asks for.
pub record IsCandidate (document : CoiDocumentFacts) (r : CoverageRequirement) (p : CoiPolicyFacts)
    : Type 0 where
  pub on_document : Memᴰ p document.policies
  pub right_type : p.coverage_type.value ≡ r.coverage_type

pub candidate_policies-IsCandidate :
    (c : Collation) (r : CoverageRequirement) (document : CoiDocumentFacts)
    → All (IsCandidate document r) (candidate_policies c r document)
unfolding candidate_policies
candidate_policies-IsCandidate c r document = All-sort _ (IsCandidate document r) _ (
    All-of_forall _ _ (λ p m.
      let (on, q) =
        Memᴰ-filter
          (λ (p : CoiPolicyFacts).
            decide (CoverageType-discrete p.coverage_type.value r.coverage_type))
          document.policies m in
      record {
        on_document = on;
        right_type = (decide_iff (CoverageType-discrete p.coverage_type.value r.coverage_type)).0 q;
      }))

-- The findings of one candidate, with the policy that they are about.
pub record IsEvaluated (c : Collation) (document : CoiDocumentFacts) (day : IsoDate)
    (r : CoverageRequirement) (e : CandidateEvaluation) : Type 0 where
  pub policy : CoiPolicyFacts
  pub candidate : IsCandidate document r policy
  pub evaluated : evaluate_policy c r policy document day ≡ some e.findings

module _ (c : Collation) (document : CoiDocumentFacts) (day : IsoDate)
    (r : CoverageRequirement) where
  pub evaluate_candidate-IsEvaluated :
      (p : CoiPolicyFacts) (e : CandidateEvaluation)
      → IsCandidate document r p
      → evaluate_candidate c r document day p ≡ some e
      → IsEvaluated c document day r e
  unfolding evaluate_candidate
  evaluate_candidate-IsEvaluated p e k h =
      let (fs, fe, h') = >>=-eq-some (evaluate_policy c r p document day) _ h in
      subst (IsEvaluated c document day r) (some-inj h')
        (record { policy = p; candidate = k; evaluated = fe })

pub Memᴰ_of_sort {ℓ} :
    {A : Type ℓ} (cmp : A → A → Ordering) (xs : List A) {x : A} → Memᴰ x xs → Memᴰ x (sort cmp xs)
Memᴰ_of_sort cmp xs m =
    All-Memᴰ (λ x. Memᴰ x (sort cmp xs)) xs
      (All-of_sort cmp (λ x. Memᴰ x (sort cmp xs)) xs (All-of_forall _ _ (λ x k. k))) m

-- No policy with the coverage is left out.
pub IsCandidate-Memᴰ :
    (c : Collation) (r : CoverageRequirement) (document : CoiDocumentFacts) (p : CoiPolicyFacts)
    → IsCandidate document r p
    → Memᴰ p (candidate_policies c r document)
unfolding candidate_policies
IsCandidate-Memᴰ c r document p k = Memᴰ_of_sort _ _ (
    Memᴰ_of_filter
      (λ (p : CoiPolicyFacts). decide (CoverageType-discrete p.coverage_type.value r.coverage_type))
      document.policies k.on_document
      ((decide_iff (CoverageType-discrete p.coverage_type.value r.coverage_type)).1 k.right_type))
