-- ===== src/Rules/Limit.antt =====
-- shared/rules.ts: `evaluateLimit`, umbrella stacking included.
use opencoi.Base.{
  ℕ, ◌+◌, compare, Ordering, Bool, true, false, not, ◌&&◌, ◌||◌, Option, none, some, List, [], ◌∷◌,
  map, leb, if◌then◌else◌, ◌>>=◌, Text, any, find, filter, is_some,
}
use opencoi.Base.Int.{pos}
use opencoi.Base.Sort.{or_else, sort}
use opencoi.Dates.{IsoDate, add_iso_date_days}
use opencoi.Domain.{
  FindingStatus, pass, fail, unknown, CoverageType, umbrella_excess_liability, LimitType,
  general_aggregate, products_completed_operations_aggregate, aggregate, each_occurrence,
  max_safe_integer, is_confirmed_status, EvidenceField, CoiPolicyFacts, CoiDocumentFacts, limit,
  FindingCode, required_limit_missing, limit_review_required, limit_unconfirmed, limit_satisfies,
  limit_inadequate, umbrella_evidence_unconfirmed, stacked_limit_inadequate, stacked_limit_overflow,
  stacked_limit_satisfies, minimum, Observed, value_seen, amounts, ComplianceFinding,
}
use opencoi.Rules.Requirement.{LimitRequirement, CoverageRequirement, Collation}
use opencoi.Rules.Finding.{
  finding, limit_suffix, missing_status, code_by_status, is_confirmed, is_confirmed?,
}
use opencoi.Rules.Period.{is_policy_active_through}

-- `null` where the sum is no safe integer.
unfoldable pub safe_money_add : ℕ → ℕ → Option ℕ
safe_money_add left right =
    if leb (left + right) max_safe_integer then some (left + right) else none

unfoldable pub default_umbrella_limit_type : LimitType → LimitType
default_umbrella_limit_type general_aggregate = aggregate
default_umbrella_limit_type products_completed_operations_aggregate = aggregate
default_umbrella_limit_type aggregate = aggregate
default_umbrella_limit_type _ = each_occurrence

abbrev pub umbrella_type : LimitRequirement → LimitType
umbrella_type r = elim r.umbrella_limit_type [
  | none ↦ default_umbrella_limit_type r.limit_type
  | some t ↦ t
]

abbrev pub is_umbrella : CoverageType → Bool
is_umbrella umbrella_excess_liability = true
is_umbrella _ = false

pub record UmbrellaCandidate : Type 0 where
  pub policy : CoiPolicyFacts
  pub limit : Option (EvidenceField ℕ)
  pub indeterminate : Bool
  pub usable : Bool

-- `field?.confirmation === "UNCONFIRMED"`
abbrev is_unconfirmed? {ℓ} : {T : Type ℓ} → Option (EvidenceField T) → Bool
is_unconfirmed? none = false
is_unconfirmed? (some f) = not (is_confirmed_status f.confirmation)

abbrev pub amount_of : Option (EvidenceField ℕ) → ℕ
amount_of none = 0
amount_of (some f) = f.value

unfoldable pub umbrella_candidate :
    CoiDocumentFacts → LimitType → IsoDate → IsoDate → CoiPolicyFacts → UmbrellaCandidate
umbrella_candidate document umbrella_limit_type evaluation_date required_through candidate =
    record {
      policy = candidate;
      limit = candidate.limits umbrella_limit_type;
      indeterminate =
          not (is_confirmed_status document.review_status)
          || not (is_confirmed_status candidate.coverage_type.confirmation)
          || is_unconfirmed? (candidate.limits umbrella_limit_type)
          || is_unconfirmed? candidate.effective_date
          || is_unconfirmed? candidate.expiration_date;
      usable =
          is_confirmed document candidate.coverage_type
          && is_confirmed? document (candidate.limits umbrella_limit_type)
          && is_policy_active_through candidate document evaluation_date required_through;
    }

module _ (collation : Collation) where
  -- Larger amounts first, then by policy id.
  unfoldable pub compare_umbrellas : UmbrellaCandidate → UmbrellaCandidate → Ordering
  compare_umbrellas left right =
      or_else (compare (amount_of right.limit) (amount_of left.limit))
        (collation.locale_compare left.policy.id right.policy.id)

  unfoldable pub umbrella_candidates :
      CoiDocumentFacts → LimitType → IsoDate → IsoDate → List UmbrellaCandidate
  umbrella_candidates document umbrella_limit_type evaluation_date required_through =
      sort compare_umbrellas (
        filter (λ (c : UmbrellaCandidate). is_some c.limit)
          (map (umbrella_candidate document umbrella_limit_type evaluation_date required_through)
            (filter (λ (p : CoiPolicyFacts). is_umbrella p.coverage_type.value) document.policies)))

module _ (coverage_requirement : CoverageRequirement) (limit_requirement : LimitRequirement)
    (policy : CoiPolicyFacts) where
  unfoldable pub limit_finding :
      FindingStatus → FindingCode → Observed → List Text → ComplianceFinding
  limit_finding status code observed evidence_ids =
      finding coverage_requirement.id (limit_suffix limit_requirement.limit_type policy.id) limit
        status code
        (minimum limit_requirement.limit_type limit_requirement.minimum_minor
          limit_requirement.allow_umbrella_stacking)
        (some observed) evidence_ids

  -- The sum of the base amount and the chosen umbrella's amount against the minimum.
  unfoldable pub stacked_finding : ℕ → ℕ → Text → ComplianceFinding
  unfolding limit_finding
  stacked_finding base umbrella umbrella_id = elim (safe_money_add base umbrella) [
    | none ↦
        limit_finding unknown stacked_limit_overflow (amounts base (some umbrella) none)
          (policy.id ∷ umbrella_id ∷ [])
    | some total ↦
        let passes = leb limit_requirement.minimum_minor total in
        limit_finding (if passes then pass else fail)
          (if passes then stacked_limit_satisfies else stacked_limit_inadequate)
          (amounts base (some umbrella) (some total)) (policy.id ∷ umbrella_id ∷ [])
  ]

  -- The last part of `evaluateLimit`, from the sorted umbrella candidates on.
  unfoldable pub umbrella_finding : ℕ → List UmbrellaCandidate → ComplianceFinding
  unfolding limit_finding
  umbrella_finding base candidates =
      let without =
        (if any (λ (c : UmbrellaCandidate). c.indeterminate) candidates
          then limit_finding unknown umbrella_evidence_unconfirmed (amounts base none none)
              (policy.id ∷ map (λ (c : UmbrellaCandidate). c.policy.id) candidates)
          else limit_finding fail stacked_limit_inadequate (amounts base none (some base))
              (policy.id ∷ [])) in
      elim (find (λ (c : UmbrellaCandidate). c.usable) candidates) [
        | none ↦ without
        | some umbrella ↦ elim umbrella.limit [
          | none ↦ without
          | some credited ↦ stacked_finding base credited.value umbrella.policy.id
        ]
      ]

module _ (collation : Collation) (coverage_requirement : CoverageRequirement)
    (limit_requirement : LimitRequirement) (policy : CoiPolicyFacts) (document : CoiDocumentFacts)
    (evaluation_date : IsoDate) where
  -- The limit is on the document.
  unfoldable pub limit_of_field : EvidenceField ℕ → Option ComplianceFinding
  unfolding limit_finding
  limit_of_field f =
      let result = limit_finding coverage_requirement limit_requirement policy in
      let stacked = (do
        required_through ←
            add_iso_date_days evaluation_date (pos coverage_requirement.minimum_days_remaining)
        some (
            umbrella_finding coverage_requirement limit_requirement policy f.value (
              umbrella_candidates collation document (umbrella_type limit_requirement)
                evaluation_date required_through))) in
      if not (is_confirmed document f)
      then some (
          result unknown limit_unconfirmed (value_seen (some f.value) (some f.confirmation))
            (policy.id ∷ []))
      else if leb limit_requirement.minimum_minor f.value
      then some (result pass limit_satisfies (amounts f.value none (some f.value)) (policy.id ∷ []))
      else if not limit_requirement.allow_umbrella_stacking
      then some
          (result fail limit_inadequate (amounts f.value none (some f.value)) (policy.id ∷ []))
      else stacked

  unfoldable pub evaluate_limit : Option ComplianceFinding
  unfolding limit_of_field
  evaluate_limit =
      let status = missing_status document in
      elim (policy.limits limit_requirement.limit_type) [
        | none ↦ some (
            limit_finding coverage_requirement limit_requirement policy status
              (code_by_status status required_limit_missing limit_review_required)
              (value_seen none none) (policy.id ∷ []))
        | some f ↦ limit_of_field f
      ]
