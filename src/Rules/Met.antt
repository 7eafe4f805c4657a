-- ===== src/Rules/Met.antt =====
-- What it means for a certificate to meet a requirement, said without the rules engine: which
-- confirmed facts have to stand on the document.
pub mod Period
pub mod Limit
pub mod Endorsement
pub mod Policy
use mathlib.Core.List.{Memᴰ}
use opencoi.Base.{ℕ, ◌+◌, ◌≤◌, ◌≡◌, ◌⊎◌, true, false, Option, none, some, Text, All}
use opencoi.Base.Int.{pos, ◌≤ℤ◌}
use opencoi.Dates.{IsoDate, iso_date_to_epoch_day, add_iso_date_days}
use opencoi.Domain.{
  FindingStatus, is_fail, is_unknown, umbrella_excess_liability, confirmed, EvidenceField,
  CoiPolicyFacts, CoiEndorsementEvidence, CoiDocumentFacts, ComplianceFinding, RequiredPolicyField,
  endorsement_evidence_rank, max_safe_integer,
}
use opencoi.Rules.Requirement.{
  Applicability, LimitRequirement, EndorsementRequirement, CoverageRequirement,
}
use opencoi.Rules.Policy.{field_of}
use opencoi.Rules.Limit.{umbrella_type}
use opencoi.Rules.Endorsement.{endorsement_matches}

-- Neither a failure nor an unknown.
pub record IsFine (f : ComplianceFinding) : Type 0 where
  pub no_fail : is_fail f.status ≡ false
  pub no_unknown : is_unknown f.status ≡ false

-- A reviewer confirmed the document as a whole and the field.
pub record IsConfirmed {T : Type 0} (document : CoiDocumentFacts) (f : EvidenceField T)
    : Type 0 where
  pub document_confirmed : document.review_status ≡ confirmed
  pub field_confirmed : f.confirmation ≡ confirmed

-- An identity that the document leaves out needs no confirmation.
abbrev pub ConfirmedIfShown : CoiDocumentFacts → Option (EvidenceField Text) → Type 0
ConfirmedIfShown document none = Unit
ConfirmedIfShown document (some f) = IsConfirmed document f

-- Both dates are confirmed, and the period holds the day and runs to `through` at least.
pub record CoversPeriod (document : CoiDocumentFacts) (policy : CoiPolicyFacts)
    (day through : IsoDate) : Type 0 where
  pub effective : EvidenceField IsoDate
  pub expiration : EvidenceField IsoDate
  pub effective_shown : policy.effective_date ≡ some effective
  pub expiration_shown : policy.expiration_date ≡ some expiration
  pub effective_confirmed : IsConfirmed document effective
  pub expiration_confirmed : IsConfirmed document expiration
  pub begins : iso_date_to_epoch_day effective.value ≤ℤ iso_date_to_epoch_day day
  pub lasts : iso_date_to_epoch_day through ≤ℤ iso_date_to_epoch_day expiration.value

abbrev pub ShowsField : CoiDocumentFacts → CoiPolicyFacts → RequiredPolicyField → Type 0
ShowsField document policy required_field =
    (f : EvidenceField Text) × (field_of policy required_field ≡ some f) × IsConfirmed document f

-- An umbrella policy of the document that is confirmed, in force and makes up the difference.
pub record Stacks (document : CoiDocumentFacts) (l : LimitRequirement) (base : ℕ)
    (day through : IsoDate) : Type 0 where
  pub allowed : l.allow_umbrella_stacking ≡ true
  pub umbrella : CoiPolicyFacts
  pub on_document : Memᴰ umbrella document.policies
  pub is_umbrella : umbrella.coverage_type.value ≡ umbrella_excess_liability
  pub type_confirmed : IsConfirmed document umbrella.coverage_type
  pub amount : EvidenceField ℕ
  pub amount_shown : umbrella.limits (umbrella_type l) ≡ some amount
  pub amount_confirmed : IsConfirmed document amount
  pub in_force : CoversPeriod document umbrella day through
  pub enough : l.minimum_minor ≤ base + amount.value
  pub safe : base + amount.value ≤ max_safe_integer

pub record MeetsLimit (document : CoiDocumentFacts) (policy : CoiPolicyFacts)
    (day through : IsoDate) (l : LimitRequirement) : Type 0 where
  pub base : EvidenceField ℕ
  pub base_shown : policy.limits l.limit_type ≡ some base
  pub base_confirmed : IsConfirmed document base
  pub reaches : (l.minimum_minor ≤ base.value) ⊎ Stacks document l base.value day through

pub record ShowsEndorsement (document : CoiDocumentFacts) (e : EndorsementRequirement)
    : Type 0 where
  pub shown : CoiEndorsementEvidence
  pub on_document : Memᴰ shown document.endorsements
  pub is_match : endorsement_matches e shown ≡ true
  pub form_code_confirmed : ConfirmedIfShown document shown.form_code
  pub name_confirmed : ConfirmedIfShown document shown.name
  pub level_confirmed : IsConfirmed document shown.evidence_level
  pub strong_enough :
      endorsement_evidence_rank e.minimum_evidence_level
      ≤ endorsement_evidence_rank shown.evidence_level.value

-- One policy of the document meets every part of the requirement.
pub record PolicyMeets (document : CoiDocumentFacts) (day : IsoDate) (r : CoverageRequirement)
    (policy : CoiPolicyFacts) : Type 0 where
  pub through : IsoDate
  pub through_date : add_iso_date_days day (pos r.minimum_days_remaining) ≡ some through
  pub type_confirmed : IsConfirmed document policy.coverage_type
  pub fields : All (ShowsField document policy) r.required_policy_fields
  pub in_force : CoversPeriod document policy day through
  pub limits : All (MeetsLimit document policy day through) r.minimum_limits

pub record Meets (document : CoiDocumentFacts) (day : IsoDate) (r : CoverageRequirement)
    : Type 0 where
  pub policy : CoiPolicyFacts
  pub on_document : Memᴰ policy document.policies
  pub right_type : policy.coverage_type.value ≡ r.coverage_type
  pub policy_meets : PolicyMeets document day r policy
  pub endorsements :
      All
        (λ (e : EndorsementRequirement).
          e.applicability ≡ Applicability.required → ShowsEndorsement document e)
        r.endorsements
