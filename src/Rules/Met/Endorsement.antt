-- ===== src/Rules/Met/Endorsement.antt =====
-- An endorsement finding that is fine shows confirmed evidence of the required strength.
use mathlib.Core.List.{Memᴰ}
use opencoi.Base.{
  ◌≡◌, true, none, some, arith, Option, Option-cases, inl, inr, All-of_forall, Memᴰ-filter, Text,
}
use opencoi.Base.Sort.Best.{All-best}
use opencoi.Domain.{EvidenceField, CoiEndorsementEvidence, CoiDocumentFacts}
use opencoi.Rules.Requirement.{
  Applicability, EndorsementRequirement, CoverageRequirement, Collation,
}
use opencoi.Rules.Endorsement.{
  endorsement_matches, identity_confirmed, compare_evidence, best_evidence, evaluate_endorsement,
}
use opencoi.Rules.Met.{IsFine, ConfirmedIfShown, ShowsEndorsement}
use opencoi.Rules.Met.Period.{is_confirmed_sound}

identity_confirmed_sound :
    (document : CoiDocumentFacts) (f : Option (EvidenceField Text))
    → identity_confirmed document f ≡ true
    → ConfirmedIfShown document f
identity_confirmed_sound document none h = tt
identity_confirmed_sound document (some f) h = is_confirmed_sound document f h

-- The best evidence stands on the document and matches.
best_evidence_found :
    (c : Collation) (document : CoiDocumentFacts) (e : EndorsementRequirement)
    (b : CoiEndorsementEvidence)
    → best_evidence c document e ≡ some b
    → Memᴰ b document.endorsements × (endorsement_matches e b ≡ true)
unfolding best_evidence
best_evidence_found c document e b h =
    All-best (compare_evidence c)
      (λ (b : CoiEndorsementEvidence).
        Memᴰ b document.endorsements × (endorsement_matches e b ≡ true))
      _ (All-of_forall _ _ (λ b m. Memᴰ-filter (endorsement_matches e) document.endorsements m)) h

pub fine_endorsement-ShowsEndorsement :
    (c : Collation) (r : CoverageRequirement) (document : CoiDocumentFacts)
    (e : EndorsementRequirement)
    → IsFine (evaluate_endorsement c r document e)
    → e.applicability ≡ Applicability.required
    → ShowsEndorsement document e
unfolding evaluate_endorsement
fine_endorsement-ShowsEndorsement c r document e fine needed =
    elim (Option-cases (best_evidence c document e)) [
      | inl n ↦ absurd (ground arith)
      | inr (b, q) ↦
          let (m, k) = best_evidence_found c document e b q in
          record {
            shown = b;
            on_document = m;
            is_match = k;
            form_code_confirmed = identity_confirmed_sound document b.form_code (ground arith);
            name_confirmed = identity_confirmed_sound document b.name (ground arith);
            level_confirmed = is_confirmed_sound document b.evidence_level (ground arith);
            strong_enough = ground arith;
          }
    ]
