-- ===== src/Rules/Candidate.antt =====
-- shared/rules.ts: `statusCounts` and `compareCandidateEvaluations`, the choice among the policies
-- that show one coverage.
pub mod Best
use opencoi.Base.{
  ℕ, ◌+◌, compare, Ordering, Bool, true, false, ◌&&◌, List, [], ◌∷◌, ltb, ◌==◌, Text,
}
use opencoi.Base.Sort.{or_else}
use opencoi.Domain.{is_fail, is_unknown, ComplianceFinding}
use opencoi.Rules.Requirement.{Collation}

pub record CandidateEvaluation : Type 0 where
  pub policy_id : Text
  pub findings : List ComplianceFinding

pub record StatusCounts : Type 0 where
  pub fails : ℕ
  pub unknowns : ℕ

abbrev pub one_if : Bool → ℕ
one_if true = 1
one_if false = 0

-- The reduction of `statusCounts` from the counts so far.
unfoldable pub counts_from : StatusCounts → List ComplianceFinding → StatusCounts
counts_from counts [] = counts
counts_from counts (item ∷ rest) =
    counts_from
      (record {
        fails = counts.fails + one_if (is_fail item.status);
        unknowns = counts.unknowns + one_if (is_unknown item.status);
      })
      rest

unfoldable pub status_counts : List ComplianceFinding → StatusCounts
unfolding counts_from
status_counts = counts_from (record { fails = 0; unknowns = 0 })

-- `left !== right`, and then which of the two flags is set.
abbrev pub flag_first : Bool → Bool → Ordering → Ordering
flag_first true false next = Ordering.lt
flag_first false true next = Ordering.gt
flag_first _ _ next = next

abbrev pub all_pass : StatusCounts → Bool
all_pass counts = (counts.fails == 0) && (counts.unknowns == 0)

abbrev pub unknown_only : StatusCounts → Bool
unknown_only counts = (counts.fails == 0) && ltb 0 counts.unknowns

unfoldable pub compare_counts : StatusCounts → StatusCounts → Ordering → Ordering
compare_counts left right by_id = flag_first (all_pass left) (all_pass right) (
    flag_first (unknown_only left) (unknown_only right) (
      or_else (compare left.fails right.fails)
        (or_else (compare left.unknowns right.unknowns) by_id)))

unfoldable pub compare_candidate_evaluations :
    Collation → CandidateEvaluation → CandidateEvaluation → Ordering
unfolding compare_counts
compare_candidate_evaluations collation left right =
    compare_counts (status_counts left.findings) (status_counts right.findings)
      (collation.locale_compare left.policy_id right.policy_id)
