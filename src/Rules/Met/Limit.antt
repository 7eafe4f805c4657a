-- ===== src/Rules/Met/Limit.antt =====
-- A limit finding that is fine shows a limit that reaches the minimum, alone or with an umbrella.
use mathlib.Core.List.{Memᴰ}
use opencoi.Base.{
  ℕ, ◌≡◌, true, some, List, [], ◌∷◌, map, arith, refl, Option-cases, inl, inr, All, All-of_forall,
  All-Memᴰ, Memᴰ-filter, find-eq-some, find, is_some, Bool-cases, leb, ap, ◌∙◌, ◌+◌, ◌≤◌, Text,
}
use opencoi.Base.Int.{pos}
use opencoi.Base.Sort.Best.{All-sort}
use opencoi.Dates.{IsoDate, add_iso_date_days}
use opencoi.Domain.{
  LimitType, EvidenceField, CoiPolicyFacts, CoiDocumentFacts, ComplianceFinding,
  umbrella_excess_liability, CoverageType, max_safe_integer,
}
use opencoi.Rules.Requirement.{LimitRequirement, CoverageRequirement, Collation}
use opencoi.Rules.Limit.{
  safe_money_add, umbrella_type, is_umbrella, UmbrellaCandidate, umbrella_candidate,
  umbrella_candidates, compare_umbrellas, stacked_finding, umbrella_finding, limit_of_field,
  evaluate_limit,
}
use opencoi.Rules.Met.{IsFine, Stacks, MeetsLimit}
use opencoi.Rules.Met.Period.{is_confirmed_sound, active-CoversPeriod}

is_umbrella_sound : (t : CoverageType) → is_umbrella t ≡ true → t ≡ umbrella_excess_liability
is_umbrella_sound t h = ground arith

-- Where a candidate comes from.
record ComesFrom (document : CoiDocumentFacts) (t : LimitType) (day through : IsoDate)
    (c : UmbrellaCandidate) : Type 0 where
  policy : CoiPolicyFacts
  on_document : Memᴰ policy document.policies
  is_umbrella_policy : is_umbrella policy.coverage_type.value ≡ true
  same : umbrella_candidate document t day through policy ≡ c

module _ (collation : Collation) (document : CoiDocumentFacts) (t : LimitType)
    (day through : IsoDate) where
  candidates-ComeFrom :
      All (ComesFrom document t day through) (umbrella_candidates collation document t day through)
  unfolding umbrella_candidates
  candidates-ComeFrom =
      All-sort (compare_umbrellas collation) (ComesFrom document t day through) _ (
        All-of_forall (ComesFrom document t day through) _ (λ c m.
          All-Memᴰ (ComesFrom document t day through) _
            (made _ (
              All-of_forall _ _ (λ p m.
                Memᴰ-filter (λ (p : CoiPolicyFacts). is_umbrella p.coverage_type.value)
                  document.policies m)))
            (Memᴰ-filter (λ (c : UmbrellaCandidate). is_some c.limit) _ m).0))
    where
      made :
          (ps : List CoiPolicyFacts)
          → All
              (λ (p : CoiPolicyFacts).
                Memᴰ p document.policies × (is_umbrella p.coverage_type.value ≡ true))
              ps
          → All
              (ComesFrom document t day through)
              (map (umbrella_candidate document t day through) ps)
      made [] h = tt
      made (p ∷ ps) h = (
        record { policy = p; on_document = h.0.0; is_umbrella_policy = h.0.1; same = refl },
        made ps h.1,
      )

module _ (c : CoverageRequirement) (l : LimitRequirement) (p : CoiPolicyFacts) (u : Text) where
  fine_stacked :
      (base amount : ℕ)
      → IsFine (stacked_finding c l p base amount u)
      → (l.minimum_minor ≤ base + amount) × (base + amount ≤ max_safe_integer)
  unfolding stacked_finding safe_money_add
  fine_stacked base amount h = ground arith

-- A fine finding of the umbrella part names a usable candidate with an amount.
IsFine-umbrella :
    (c : CoverageRequirement) (l : LimitRequirement) (p : CoiPolicyFacts) (base : ℕ)
    (us : List UmbrellaCandidate)
    → IsFine (umbrella_finding c l p base us)
    → (u : UmbrellaCandidate) × (g : EvidenceField ℕ) × Memᴰ u us
      × (u.usable ≡ true)
      × (u.limit ≡ some g)
      × IsFine (stacked_finding c l p base g.value u.policy.id)
unfolding umbrella_finding
IsFine-umbrella c l p base us h =
    elim (Option-cases (find (λ (c : UmbrellaCandidate). c.usable) us)) [
      | inl e ↦ absurd (ground arith)
      | inr (u, e) ↦ elim (Option-cases u.limit) [
        | inl n ↦ absurd (ground arith)
        | inr (g, q) ↦
            let (m, k) = find-eq-some (λ (c : UmbrellaCandidate). c.usable) us e in
            (u, g, m, k, q, ground arith)
      ]
    ]

module _ (collation : Collation) (c : CoverageRequirement) (l : LimitRequirement)
    (p : CoiPolicyFacts) (document : CoiDocumentFacts) (day through : IsoDate) where
  fine_umbrella-Stacks :
      (base : ℕ)
      → l.allow_umbrella_stacking ≡ true
      → IsFine (
          umbrella_finding c l p base
            (umbrella_candidates collation document (umbrella_type l) day through))
      → Stacks document l base day through
  unfolding umbrella_candidate
  fine_umbrella-Stacks base allowed h =
      let (u, g, m, usable, shown, fine) = IsFine-umbrella c l p base _ h in
      let from =
        All-Memᴰ (ComesFrom document (umbrella_type l) day through) _
          (candidates-ComeFrom collation document (umbrella_type l) day through) m in
      let q = from.same in
      let shown' : from.policy.limits (umbrella_type l) ≡ some g =
        ap (λ (c : UmbrellaCandidate). c.limit) q ∙ shown in
      let usable' : (umbrella_candidate document (umbrella_type l) day through from.policy).usable
          ≡ true =
        ap (λ (c : UmbrellaCandidate). c.usable) q ∙ usable in
      record {
        allowed = allowed;
        umbrella = from.policy;
        on_document = from.on_document;
        is_umbrella = is_umbrella_sound _ from.is_umbrella_policy;
        type_confirmed = is_confirmed_sound document from.policy.coverage_type (ground arith);
        amount = g;
        amount_shown = shown';
        amount_confirmed = is_confirmed_sound document g (ground arith);
        in_force = active-CoversPeriod document from.policy day through (ground arith);
        enough = (fine_stacked c l p u.policy.id base g.value fine).0;
        safe = (fine_stacked c l p u.policy.id base g.value fine).1;
      }

  fine_limit_of_field :
      (f : EvidenceField ℕ) (r : ComplianceFinding)
      → p.limits l.limit_type ≡ some f
      → add_iso_date_days day (pos c.minimum_days_remaining) ≡ some through
      → limit_of_field collation c l p document day f ≡ some r
      → IsFine r
      → MeetsLimit document p day through l
  unfolding limit_of_field
  fine_limit_of_field f r shown t h fine = record {
    base = f;
    base_shown = shown;
    base_confirmed = is_confirmed_sound document f (ground arith);
    reaches = elim (Bool-cases (leb l.minimum_minor f.value)) [
      | inl e ↦ inl (ground arith)
      | inr e ↦ inr (fine_umbrella-Stacks f.value (ground arith) (ground arith))
    ];
  }

  pub fine_limit-MeetsLimit :
      (r : ComplianceFinding)
      → add_iso_date_days day (pos c.minimum_days_remaining) ≡ some through
      → evaluate_limit collation c l p document day ≡ some r
      → IsFine r
      → MeetsLimit document p day through l
  unfolding evaluate_limit
  fine_limit-MeetsLimit r t h fine = elim (Option-cases (p.limits l.limit_type)) [
    | inl e ↦ absurd (ground arith)
    | inr (f, e) ↦ fine_limit_of_field f r e t (rw (e, evaluate_limit) at h) fine
  ]
