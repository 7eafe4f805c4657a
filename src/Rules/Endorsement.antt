-- ===== src/Rules/Endorsement.antt =====
-- shared/rules.ts: `evaluateEndorsements`, and the comparison of form codes and names.
use opencoi.Base.{
  ℕ, ◌-◌, compare, Ordering, Bool, true, false, not, ◌&&◌, ◌||◌, Option, none, some, List, [], ◌∷◌,
  ◌++◌, map, leb, ◌==◌, if◌then◌else◌, Text, text_eq, truthy, filter, head?, is_digit,
}
use opencoi.Base.Sort.{or_else, sort}
use opencoi.Domain.{
  FindingStatus, pass, fail, unknown, not_applicable, endorsement_evidence_rank,
  CoiEndorsementEvidence, CoiDocumentFacts, EvidenceField, FindingCode, endorsement,
  endorsement_not_applicable, endorsement_evidence_missing, endorsement_review_required,
  endorsement_evidence_unconfirmed, endorsement_evidence_satisfies, endorsement_evidence_inadequate,
  Expected, evidence, Observed, endorsement_seen, ComplianceFinding,
}
use opencoi.Rules.Requirement.{
  Applicability, required, EndorsementRequirement, CoverageRequirement, Collation,
}
use opencoi.Rules.Finding.{
  finding, endorsement_suffix, missing_status, code_by_status, is_confirmed,
}
use opencoi.Rules.Period.{field_value}

ligature_part : ℕ → Text
ligature_part c =
    if c == 0xfb00
    then b'F' ∷ b'F' ∷ []
    else if c == 0xfb01
    then b'F' ∷ b'I' ∷ []
    else if c == 0xfb02
    then b'F' ∷ b'L' ∷ []
    else if c == 0xfb03
    then b'F' ∷ b'F' ∷ b'I' ∷ []
    else if c == 0xfb04
    then b'F' ∷ b'F' ∷ b'L' ∷ []
    else if c == 0xfb05 || c == 0xfb06
    then b'S' ∷ b'T' ∷ []
    else []

-- The ASCII letters and digits in the upper case of one code unit. Unicode gives an upper case with
-- an ASCII letter to the ASCII letters and to the characters listed here, to no other.
identity_part : ℕ → Text
unfolding ligature_part
identity_part c =
    if is_digit c || leb 65 c && leb c 90
    then c ∷ []
    else if leb 97 c && leb c 122
    then (c - 32) ∷ []
    else if c == 0xdf
    then b'S' ∷ b'S' ∷ []
    else if c == 0x131
    then b'I' ∷ []
    else if c == 0x149
    then b'N' ∷ []
    else if c == 0x17f
    then b'S' ∷ []
    else if c == 0x1f0
    then b'J' ∷ []
    else if c == 0x1e96
    then b'H' ∷ []
    else if c == 0x1e97
    then b'T' ∷ []
    else if c == 0x1e98
    then b'W' ∷ []
    else if c == 0x1e99
    then b'Y' ∷ []
    else if c == 0x1e9a
    then b'A' ∷ []
    else ligature_part c

-- `value.toUpperCase().replace(/[^A-Z0-9]/g, "")`
unfoldable pub normalized_identity : Text → Text
unfolding identity_part
normalized_identity [] = []
normalized_identity (c ∷ s) = identity_part c ++ normalized_identity s

-- A string that is absent or empty is falsy.
abbrev pub given : Option Text → Bool
given none = false
given (some t) = truthy t

abbrev pub text_of : Option Text → Text
text_of none = []
text_of (some t) = t

abbrev pub text_of_field : Option (EvidenceField Text) → Text
text_of_field none = []
text_of_field (some f) = f.value

abbrev pub is_present : Option (EvidenceField Text) → Bool
is_present none = false
is_present (some f) = true

unfoldable pub endorsement_matches : EndorsementRequirement → CoiEndorsementEvidence → Bool
endorsement_matches requirement shown =
    if given requirement.form_code
    then is_present shown.form_code
      && text_eq (normalized_identity (text_of requirement.form_code))
          (normalized_identity (text_of_field shown.form_code))
    else if given requirement.name && is_present shown.name
    then truthy (normalized_identity (text_of requirement.name))
      && text_eq (normalized_identity (text_of_field shown.name))
          (normalized_identity (text_of requirement.name))
    else false

unfoldable pub endorsement_expected : EndorsementRequirement → Expected
endorsement_expected requirement =
    evidence requirement.form_code requirement.name requirement.minimum_evidence_level

unfoldable pub endorsement_observed : CoiEndorsementEvidence → Observed
endorsement_observed e =
    endorsement_seen (field_value e.form_code) (field_value e.name) e.evidence_level.value

-- An identity that is not shown needs no confirmation.
abbrev pub identity_confirmed : CoiDocumentFacts → Option (EvidenceField Text) → Bool
identity_confirmed document none = true
identity_confirmed document (some f) = is_confirmed document f

module _ (collation : Collation) where
  -- Higher evidence first, then by id.
  unfoldable pub compare_evidence : CoiEndorsementEvidence → CoiEndorsementEvidence → Ordering
  compare_evidence left right =
      or_else
        (compare (endorsement_evidence_rank right.evidence_level.value)
          (endorsement_evidence_rank left.evidence_level.value))
        (collation.locale_compare left.id right.id)

  unfoldable pub best_evidence :
      CoiDocumentFacts → EndorsementRequirement → Option CoiEndorsementEvidence
  best_evidence document requirement =
      head? (sort compare_evidence (filter (endorsement_matches requirement) document.endorsements))

  module _ (coverage_requirement : CoverageRequirement) (document : CoiDocumentFacts) where
    pub endorsement_finding :
        EndorsementRequirement
        → FindingStatus
        → FindingCode
        → Option Observed
        → List Text
        → ComplianceFinding
    endorsement_finding requirement status code observed evidence_ids =
        finding coverage_requirement.id (endorsement_suffix requirement.id) endorsement status code
          (endorsement_expected requirement) observed evidence_ids

    -- The body of the map for a requirement that applies.
    unfoldable pub required_endorsement : EndorsementRequirement → ComplianceFinding
    unfolding endorsement_finding
    required_endorsement requirement =
        let status = missing_status document in
        elim (best_evidence document requirement) [
          | none ↦
              endorsement_finding requirement status
                (code_by_status status endorsement_evidence_missing endorsement_review_required)
                none []
          | some best ↦
              let result = (λ (s : FindingStatus) (c : FindingCode).
                endorsement_finding requirement s c (some (endorsement_observed best))
                  (best.id ∷ [])) in
              if not (
                  identity_confirmed document best.form_code
                  && identity_confirmed document best.name)
                || not (is_confirmed document best.evidence_level)
              then result unknown endorsement_evidence_unconfirmed
              else if leb (endorsement_evidence_rank requirement.minimum_evidence_level)
                  (endorsement_evidence_rank best.evidence_level.value)
              then result pass endorsement_evidence_satisfies
              else result fail endorsement_evidence_inadequate
        ]

    unfoldable pub evaluate_endorsement : EndorsementRequirement → ComplianceFinding
    unfolding required_endorsement
    evaluate_endorsement requirement = elim requirement.applicability [
      | required ↦ required_endorsement requirement
      | Applicability.not_applicable ↦
          endorsement_finding requirement not_applicable endorsement_not_applicable none []
    ]

    unfoldable pub evaluate_endorsements : List ComplianceFinding
    unfolding evaluate_endorsement
    evaluate_endorsements = map evaluate_endorsement coverage_requirement.endorsements
