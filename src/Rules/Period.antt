-- ===== src/Rules/Period.antt =====
-- shared/rules.ts: `evaluatePolicyPeriod` and `isPolicyActiveThrough`.
use opencoi.Base.{Bool, false, ◌&&◌, Option, none, some, [], ◌∷◌, not, ◌||◌, if◌then◌else◌, ◌>>=◌}
use opencoi.Base.Int.{pos, leb_ℤ}
use opencoi.Dates.{IsoDate, iso_date_to_epoch_day, add_iso_date_days}
use opencoi.Domain.{
  FindingStatus, pass, fail, unknown, EvidenceField, CoiPolicyFacts, CoiDocumentFacts,
  policy_period, policy_period_missing, policy_period_review_required, policy_period_unconfirmed,
  policy_period_satisfies, policy_period_deficient, period, dates_seen, ComplianceFinding,
}
use opencoi.Rules.Requirement.{CoverageRequirement}
use opencoi.Rules.Finding.{finding, period_suffix, missing_status, code_by_status, is_confirmed}

abbrev pub field_value {ℓ} : {T : Type ℓ} → Option (EvidenceField T) → Option T
field_value none = none
field_value (some f) = some f.value

-- The dates of a policy against an evaluation date and a required through-date.
unfoldable pub dates_cover : IsoDate → IsoDate → IsoDate → IsoDate → Bool
dates_cover effective expiration evaluation_date required_through =
    leb_ℤ (iso_date_to_epoch_day effective) (iso_date_to_epoch_day evaluation_date)
    && leb_ℤ (iso_date_to_epoch_day required_through) (iso_date_to_epoch_day expiration)

module _ (requirement : CoverageRequirement) (policy : CoiPolicyFacts) (document : CoiDocumentFacts)
    (evaluation_date required_through : IsoDate) where
  period_finding_of :
      (observed_effective observed_expiration : Option IsoDate)
      → FindingStatus
      → opencoi.Domain.FindingCode
      → ComplianceFinding
  period_finding_of effective expiration status code =
      finding requirement.id (period_suffix policy.id) policy_period status code
        (period evaluation_date required_through requirement.minimum_days_remaining)
        (some (dates_seen effective expiration)) (policy.id ∷ [])

  -- Both dates are on the document.
  period_of_dates : EvidenceField IsoDate → EvidenceField IsoDate → ComplianceFinding
  unfolding period_finding_of
  period_of_dates effective expiration =
      let result = period_finding_of (some effective.value) (some expiration.value) in
      if not (is_confirmed document effective) || not (is_confirmed document expiration)
      then result unknown policy_period_unconfirmed
      else if dates_cover effective.value expiration.value evaluation_date required_through
      then result pass policy_period_satisfies
      else result fail policy_period_deficient

  period_missing : ComplianceFinding
  unfolding period_finding_of
  period_missing =
      let status = missing_status document in
      period_finding_of (field_value policy.effective_date) (field_value policy.expiration_date)
        status (code_by_status status policy_period_missing policy_period_review_required)

  -- `evaluatePolicyPeriod` once the through-date is known.
  unfoldable pub period_finding : ComplianceFinding
  unfolding period_of_dates period_missing
  period_finding = elim policy.effective_date [
    | none ↦ period_missing
    | some effective ↦ elim policy.expiration_date [
      | none ↦ period_missing
      | some expiration ↦ period_of_dates effective expiration
    ]
  ]

-- A through-date that is no date of four-digit year is a throw.
unfoldable pub evaluate_policy_period :
    CoverageRequirement → CoiPolicyFacts → CoiDocumentFacts → IsoDate → Option ComplianceFinding
unfolding period_finding
evaluate_policy_period requirement policy document evaluation_date = do
  required_through ← add_iso_date_days evaluation_date (pos requirement.minimum_days_remaining)
  some (period_finding requirement policy document evaluation_date required_through)

unfoldable pub is_policy_active_through :
    CoiPolicyFacts → CoiDocumentFacts → IsoDate → IsoDate → Bool
is_policy_active_through policy document evaluation_date required_through =
    elim policy.effective_date [
      | none ↦ false
      | some effective ↦ elim policy.expiration_date [
        | none ↦ false
        | some expiration ↦
            is_confirmed document effective
            && is_confirmed document expiration
            && dates_cover effective.value expiration.value evaluation_date required_through
      ]
    ]
