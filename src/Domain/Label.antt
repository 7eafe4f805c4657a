-- ===== src/Domain/Label.antt =====
-- shared/domain.ts: what each label of `deriveDocumentComplianceLabel` says of the findings.
use mathlib.Core.List.{Memᴰ}
use opencoi.Base.{
  ◌≡◌, ◌↔◌, Bool, All-of_forall, subst, inl, inr, true, false, List, arith, any, any-false,
  any-Memᴰ, any_of_Memᴰ, Bool-cases,
}
use opencoi.Domain.{
  FindingStatus, pass, fail, unknown, ComplianceFinding, is_fail, is_unknown, is_pass,
  DocumentComplianceLabel, document_compliant, document_non_compliant, document_review_required,
  document_not_applicable, derive_document_compliance_label,
}

-- Some finding of the list has the status.
abbrev pub Shows : FindingStatus → List ComplianceFinding → Type 0
Shows s fs = (f : ComplianceFinding) × Memᴰ f fs × (f.status ≡ s)

-- No finding of the list has the status.
abbrev pub Lacks : FindingStatus → List ComplianceFinding → Type 0
Lacks s fs = (f : ComplianceFinding) → Memᴰ f fs → ¬ (f.status ≡ s)

is_fail_sound : (s : FindingStatus) → is_fail s ≡ true → s ≡ fail
is_fail_sound s h = ground arith

is_unknown_sound : (s : FindingStatus) → is_unknown s ≡ true → s ≡ unknown
is_unknown_sound s h = ground arith

is_pass_sound : (s : FindingStatus) → is_pass s ≡ true → s ≡ pass
is_pass_sound s h = ground arith

-- A test of the status against what it tests for.
module _ (t : FindingStatus → Bool) (s : FindingStatus)
    (sound : (x : FindingStatus) → t x ≡ true → x ≡ s)
    (complete : (x : FindingStatus) → x ≡ s → t x ≡ true) (fs : List ComplianceFinding) where
  shows : any (λ (f : ComplianceFinding). t f.status) fs ≡ true → Shows s fs
  shows h =
      let (f, m, e) = any-Memᴰ (λ (f : ComplianceFinding). t f.status) fs h in
      (f, m, sound f.status e)

  any_of_Shows : Shows s fs → any (λ (f : ComplianceFinding). t f.status) fs ≡ true
  any_of_Shows (f, m, e) =
      any_of_Memᴰ (λ (f : ComplianceFinding). t f.status) fs m (complete f.status e)

  lacks : any (λ (f : ComplianceFinding). t f.status) fs ≡ false → Lacks s fs
  lacks h f m e = cc (h, any_of_Shows (f, m, e))

  any_of_Lacks : Lacks s fs → any (λ (f : ComplianceFinding). t f.status) fs ≡ false
  any_of_Lacks h =
      any-false (λ (f : ComplianceFinding). t f.status) fs
        (All-of_forall (λ (f : ComplianceFinding). t f.status ≡ false) fs
          (λ f m. elim (Bool-cases (t f.status)) [
            | inl e ↦ absurd (h f m (sound f.status e))
            | inr e ↦ e
          ]))

-- What a label says of the findings.
abbrev pub Means : DocumentComplianceLabel → List ComplianceFinding → Type 0
Means document_non_compliant fs = Shows fail fs
Means document_review_required fs = Lacks fail fs × Shows unknown fs
Means document_compliant fs = Lacks fail fs × Lacks unknown fs × Shows pass fs
Means document_not_applicable fs = Lacks fail fs × Lacks unknown fs × Lacks pass fs

module _ (fs : List ComplianceFinding) where
  has_fail : Shows fail fs → any (λ (f : ComplianceFinding). is_fail f.status) fs ≡ true
  has_fail = any_of_Shows is_fail fail is_fail_sound (λ x e. ground arith) fs

  no_fail : Lacks fail fs → any (λ (f : ComplianceFinding). is_fail f.status) fs ≡ false
  no_fail = any_of_Lacks is_fail fail is_fail_sound (λ x e. ground arith) fs

  has_unknown : Shows unknown fs → any (λ (f : ComplianceFinding). is_unknown f.status) fs ≡ true
  has_unknown = any_of_Shows is_unknown unknown is_unknown_sound (λ x e. ground arith) fs

  no_unknown : Lacks unknown fs → any (λ (f : ComplianceFinding). is_unknown f.status) fs ≡ false
  no_unknown = any_of_Lacks is_unknown unknown is_unknown_sound (λ x e. ground arith) fs

  has_pass : Shows pass fs → any (λ (f : ComplianceFinding). is_pass f.status) fs ≡ true
  has_pass = any_of_Shows is_pass pass is_pass_sound (λ x e. ground arith) fs

  no_pass : Lacks pass fs → any (λ (f : ComplianceFinding). is_pass f.status) fs ≡ false
  no_pass = any_of_Lacks is_pass pass is_pass_sound (λ x e. ground arith) fs

  label_of_Means :
      (l : DocumentComplianceLabel) → Means l fs → derive_document_compliance_label fs ≡ l
  unfolding derive_document_compliance_label
  label_of_Means document_non_compliant h = rw (has_fail h)
  label_of_Means document_review_required h = rw (no_fail h.0, has_unknown h.1)
  label_of_Means document_compliant h = rw (no_fail h.0, no_unknown h.1, has_pass h.2)
  label_of_Means document_not_applicable h = rw (no_fail h.0, no_unknown h.1, no_pass h.2)

  Means-label :
      (l : DocumentComplianceLabel) → Means l fs → Means (derive_document_compliance_label fs) fs
  Means-label l h = rw (label_of_Means l h) h

  Means-derive_label : Means (derive_document_compliance_label fs) fs
  Means-derive_label = elim (Bool-cases (any (λ (f : ComplianceFinding). is_fail f.status) fs)) [
    | inl a ↦
        Means-label document_non_compliant
          (shows is_fail fail is_fail_sound (λ x e. ground arith) fs a)
    | inr a ↦
        let f0 = lacks is_fail fail is_fail_sound (λ x e. ground arith) fs a in
        elim (Bool-cases (any (λ (f : ComplianceFinding). is_unknown f.status) fs)) [
          | inl b ↦
              Means-label document_review_required
                (f0, shows is_unknown unknown is_unknown_sound (λ x e. ground arith) fs b)
          | inr b ↦
              let u0 = lacks is_unknown unknown is_unknown_sound (λ x e. ground arith) fs b in
              elim (Bool-cases (any (λ (f : ComplianceFinding). is_pass f.status) fs)) [
                | inl c ↦
                    Means-label document_compliant
                      (f0, u0, shows is_pass pass is_pass_sound (λ x e. ground arith) fs c)
                | inr c ↦
                    Means-label document_not_applicable
                      (f0, u0, lacks is_pass pass is_pass_sound (λ x e. ground arith) fs c)
              ]
        ]
  ]

  -- A label is the one derived exactly when the findings are as it says: a failure anywhere makes
  -- the document non-compliant; without one, an unknown makes it review required; without either,
  -- a pass makes it compliant; and with none of the three it is not applicable.
  pub label-iff_Means :
      (l : DocumentComplianceLabel) → (derive_document_compliance_label fs ≡ l) ↔ Means l fs
  label-iff_Means l = ((λ e. subst (λ k. Means k fs) e Means-derive_label), label_of_Means l)
