-- ===== src/Rules/Met/Period.antt =====
-- A period finding that is fine shows a period that covers; so does an active umbrella.
use opencoi.Base.{◌≡◌, true, some, arith, Option-cases, inl, inr}
use opencoi.Dates.{IsoDate}
use opencoi.Domain.{EvidenceField, CoiPolicyFacts, CoiDocumentFacts}
use opencoi.Rules.Requirement.{CoverageRequirement}
use opencoi.Rules.Finding.{is_confirmed}
use opencoi.Rules.Period.{dates_cover, period_finding, is_policy_active_through}
use opencoi.Rules.Met.{IsFine, IsConfirmed, CoversPeriod}

pub is_confirmed_sound :
    {T : Type 0} (document : CoiDocumentFacts) (f : EvidenceField T)
    → is_confirmed document f ≡ true
    → IsConfirmed document f
is_confirmed_sound document f h = ground arith

module _ (document : CoiDocumentFacts) (p : CoiPolicyFacts) (day through : IsoDate)
    (effective expiration : EvidenceField IsoDate) where
  pub covers_of_tests :
      p.effective_date ≡ some effective
      → p.expiration_date ≡ some expiration
      → is_confirmed document effective ≡ true
      → is_confirmed document expiration ≡ true
      → dates_cover effective.value expiration.value day through ≡ true
      → CoversPeriod document p day through
  unfolding dates_cover
  covers_of_tests e x ce cx h = record {
    effective = effective;
    expiration = expiration;
    effective_shown = e;
    expiration_shown = x;
    effective_confirmed = is_confirmed_sound document effective ce;
    expiration_confirmed = is_confirmed_sound document expiration cx;
    begins = ground arith;
    lasts = ground arith;
  }

module _ (document : CoiDocumentFacts) (p : CoiPolicyFacts) (day through : IsoDate) where
  pub active-CoversPeriod :
      is_policy_active_through p document day through ≡ true → CoversPeriod document p day through
  unfolding is_policy_active_through
  active-CoversPeriod h = elim (Option-cases p.effective_date) [
    | inl e ↦ absurd (ground arith)
    | inr (e, ee) ↦ elim (Option-cases p.expiration_date) [
      | inl x ↦ absurd (ground arith)
      | inr (x, xe) ↦
          covers_of_tests document p day through e x ee xe (ground arith) (ground arith)
            (ground arith)
    ]
  ]

  pub fine_period-CoversPeriod :
      (r : CoverageRequirement)
      → IsFine (period_finding r p document day through)
      → CoversPeriod document p day through
  unfolding period_finding
  fine_period-CoversPeriod r h = elim (Option-cases p.effective_date) [
    | inl e ↦ absurd (ground arith)
    | inr (e, ee) ↦ elim (Option-cases p.expiration_date) [
      | inl x ↦ absurd (ground arith)
      | inr (x, xe) ↦
          covers_of_tests document p day through e x ee xe (ground arith) (ground arith)
            (ground arith)
    ]
  ]
