-- ===== src/Rules/Candidate/Best.antt =====
-- shared/rules.ts: the order of `compareCandidateEvaluations`, and what its first candidate is.
use opencoi.Base.{ℕ, ◌+◌, ◌≡◌, ◌≢◌, ◌≤◌, Ordering, Bool, false, List, [], ◌∷◌, arith, All, refl}
use opencoi.Domain.{FindingStatus, is_fail, is_unknown, ComplianceFinding}
use opencoi.Rules.Requirement.{Collation}
use opencoi.Rules.Candidate.{
  CandidateEvaluation, StatusCounts, one_if, counts_from, status_counts, compare_counts,
  compare_candidate_evaluations,
}

compare_counts_asym :
    (l r : StatusCounts) (o o' : Ordering)
    → (o ≡ Ordering.gt → o' ≡ Ordering.lt)
    → compare_counts l r o ≡ Ordering.gt
    → compare_counts r l o' ≡ Ordering.lt
unfolding compare_counts
compare_counts_asym l r o o' h e = ground arith

compare_counts_trans :
    (a b c : StatusCounts) (ab bc ac : Ordering)
    → (ab ≢ Ordering.gt → bc ≢ Ordering.gt → ac ≢ Ordering.gt)
    → compare_counts a b ab ≢ Ordering.gt
    → compare_counts b c bc ≢ Ordering.gt
    → compare_counts a c ac ≢ Ordering.gt
unfolding compare_counts
compare_counts_trans a b c ab bc ac h p q = ground arith

module _ (c : Collation) where
  pub candidates_asym :
      (l r : CandidateEvaluation)
      → compare_candidate_evaluations c l r ≡ Ordering.gt
      → compare_candidate_evaluations c r l ≡ Ordering.lt
  unfolding compare_candidate_evaluations
  candidates_asym l r h =
      compare_counts_asym (status_counts l.findings) (status_counts r.findings)
        (c.locale_compare l.policy_id r.policy_id) (c.locale_compare r.policy_id l.policy_id)
        (c.asym l.policy_id r.policy_id) h

  pub candidates_trans :
      (a b d : CandidateEvaluation)
      → compare_candidate_evaluations c a b ≢ Ordering.gt
      → compare_candidate_evaluations c b d ≢ Ordering.gt
      → compare_candidate_evaluations c a d ≢ Ordering.gt
  unfolding compare_candidate_evaluations
  candidates_trans a b d h k =
      compare_counts_trans (status_counts a.findings) (status_counts b.findings)
        (status_counts d.findings) (c.locale_compare a.policy_id b.policy_id)
        (c.locale_compare b.policy_id d.policy_id) (c.locale_compare a.policy_id d.policy_id)
        (c.trans a.policy_id b.policy_id d.policy_id) h k

-- How many findings of the list have a status that the test accepts.
abbrev pub count_if : (FindingStatus → Bool) → List ComplianceFinding → ℕ
count_if t [] = 0
count_if t (f ∷ fs) = one_if (t f.status) + count_if t fs

counts_from_lem :
    (n : StatusCounts) (fs : List ComplianceFinding)
    → ((counts_from n fs).fails ≡ n.fails + count_if is_fail fs)
      × ((counts_from n fs).unknowns ≡ n.unknowns + count_if is_unknown fs)
unfolding counts_from
counts_from_lem n [] = (omega arith, omega arith)
counts_from_lem n (f ∷ fs) =
    let (p, q) =
      counts_from_lem
        (record {
          fails = n.fails + one_if (is_fail f.status);
          unknowns = n.unknowns + one_if (is_unknown f.status);
        })
        fs in
    (omega (arith, p), omega (arith, q))

pub status_counts_lem :
    (fs : List ComplianceFinding)
    → ((status_counts fs).fails ≡ count_if is_fail fs)
      × ((status_counts fs).unknowns ≡ count_if is_unknown fs)
unfolding status_counts
status_counts_lem fs =
    let (p, q) = counts_from_lem (record { fails = 0; unknowns = 0 }) fs in
    (omega (arith, p), omega (arith, q))

module _ (t : FindingStatus → Bool) where
  pub count_if-zero :
      (fs : List ComplianceFinding)
      → All (λ (f : ComplianceFinding). t f.status ≡ false) fs
      → count_if t fs ≡ 0
  count_if-zero [] h = refl
  count_if-zero (f ∷ fs) h = ground (arith, h.0, count_if-zero fs h.1)

  pub All-of_count_if :
      (fs : List ComplianceFinding)
      → count_if t fs ≡ 0
      → All (λ (f : ComplianceFinding). t f.status ≡ false) fs
  All-of_count_if [] h = tt
  All-of_count_if (f ∷ fs) h = (ground arith, All-of_count_if fs (ground arith))

-- What a candidate that is after no other has: no failure if some candidate has none, then no
-- unknown if some candidate has neither, and the fewest failures in any case.
pub best_counts :
    (a b : StatusCounts) (o : Ordering)
    → compare_counts a b o ≢ Ordering.gt
    → (a.fails ≤ b.fails) × (b.fails ≡ 0 → b.unknowns ≡ 0 → a.unknowns ≡ 0)
unfolding compare_counts
best_counts a b o h = ground arith
