-- ===== src/Reminders/Renewals.antt =====
-- The renewal reminders of a certificate (server/services/reminders.ts): their keys, and that a second
-- one for the same expiration date is refused.
use mathlib.Core.List.{append_cancel_left, append_cancel_right}
use opencoi.Base.{
  ℕ, ◌≡◌, refl, sym, subst, ap, ◌∙◌, Bool, true, none, some, List, [], ◌∷◌, ◌++◌, arith, Text, ◌&&◌,
  ◌||◌, text_eq, text_eq_refl, codes, length, length-append, any, update_where, Bool-cases, inl,
  inr,
}
use opencoi.Reminders.{ReminderRow, failed_row}
use opencoi.Reminders.Claim.{claim_reminder, claimed_row, fail_exhausted_stale_reminder_claims}
use opencoi.Reminders.Mark.{Mark, complete, sent_row, cancelled_row}
use opencoi.Reminders.Create.{NewReminder, create_reminder}
use opencoi.Reminders.Cycle.{RenewalCandidate, dedupe_key_of, renewal_reminder}
use opencoi.Reminders.Steps.{
  Step, creates, claims, marks, expires, Steps, done, after_step, MarkChange, sends, fails, cancels,
  mark_reminder-MarkChange,
}

-- A row of the organization has the key.
abbrev has_key : Text → Text → List ReminderRow → Bool
has_key o key = any (λ (r : ReminderRow). text_eq r.organization_id o && text_eq r.dedupe_key key)

module _ (o key : Text) where
  -- No change of the service takes a key away.
  update_where-has_key :
      (test : ReminderRow → Bool) (change : ReminderRow → ReminderRow)
      → ((r : ReminderRow)
          → (text_eq (change r).organization_id o && text_eq (change r).dedupe_key key)
            ≡ (text_eq r.organization_id o && text_eq r.dedupe_key key))
      → (rows : List ReminderRow) → has_key o key rows ≡ true
      → has_key o key (update_where test change rows).0 ≡ true
  unfolding update_where any
  update_where-has_key test change k [] h = h
  update_where-has_key test change k (r ∷ rows) h =
      elim (Bool-cases (text_eq r.organization_id o && text_eq r.dedupe_key key)) [
        | inl e ↦ elim (Bool-cases (test r)) [
          | inl q ↦ rw q (rw (k r) (rw e refl))
          | inr q ↦ rw q (rw e refl)
        ]
        | inr e ↦
            let rest = update_where-has_key test change k rows (rw e at h) in
            elim (Bool-cases (test r)) [
              | inl q ↦ rw q (rw (k r) (rw e rest))
              | inr q ↦ rw q (rw e rest)
            ]
      ]

  create_reminder-has_key :
      (p : Text) (input : NewReminder) (at : ℕ) (a b : List ReminderRow)
      → create_reminder p input at a ≡ some b
      → has_key o key a ≡ true
      → has_key o key b ≡ true
  unfolding create_reminder any
  create_reminder-has_key p input at a b e h = ground arith

  MarkChange-has_key :
      (m : Mark) (test : ReminderRow → Bool) (change : ReminderRow → ReminderRow)
      → MarkChange m test change
      → (r : ReminderRow)
      → (text_eq (change r).organization_id o && text_eq (change r).dedupe_key key)
        ≡ (text_eq r.organization_id o && text_eq r.dedupe_key key)
  unfolding sent_row cancelled_row failed_row
  MarkChange-has_key m _ _ sends r = refl
  MarkChange-has_key m _ _ fails r = refl
  MarkChange-has_key m _ _ cancels r = refl

  Step-has_key :
      {a b : List ReminderRow} → Step a b → has_key o key a ≡ true → has_key o key b ≡ true
  unfolding claim_reminder fail_exhausted_stale_reminder_claims complete claimed_row failed_row
  Step-has_key (creates p input at a b e) h = create_reminder-has_key p input at a b e h
  Step-has_key (claims p id at stale a) h = update_where-has_key _ (claimed_row at) (λ r. refl) a h
  Step-has_key (marks p k a b changed s e) h =
      let (test, change, c, q) = mark_reminder-MarkChange p k a b changed s.no_claim e in
      subst (λ x. has_key o key x ≡ true) (ap (λ x. x.0) q)
        (update_where-has_key _ change (MarkChange-has_key k test change c) a h)
  Step-has_key (expires p stale message at a) h =
      update_where-has_key _ (failed_row (some message) none at) (λ r. refl) a h

  Steps-has_key :
      {a b : List ReminderRow} → Steps a b → has_key o key a ≡ true → has_key o key b ≡ true
  Steps-has_key done h = h
  Steps-has_key (after_step s p) h = Steps-has_key p (Step-has_key s h)

created-has_key :
    (o : Text) (input : NewReminder) (at : ℕ) (a b : List ReminderRow)
    → create_reminder o input at a ≡ some b
    → has_key o input.dedupe_key b ≡ true
unfolding create_reminder any
created-has_key o input at a b e = ground (arith, text_eq_refl o, text_eq_refl input.dedupe_key)

has_key-refused :
    (o : Text) (input : NewReminder) (at : ℕ) (rows : List ReminderRow)
    → has_key o input.dedupe_key rows ≡ true
    → create_reminder o input at rows ≡ none
unfolding create_reminder any
has_key-refused o input at rows h = rw (taken rows h)
  where
    taken :
        (rows : List ReminderRow)
        → has_key o input.dedupe_key rows ≡ true
        → any
            (λ (r : ReminderRow).
              text_eq r.id input.id
              || text_eq r.organization_id o && text_eq r.dedupe_key input.dedupe_key)
            rows
          ≡ true
    taken [] k = ground arith
    taken (r ∷ rows) k = ground (arith, taken rows)

-- Two texts in two parts, the second ones of one length, have the same parts.
same_parts : (s t u v : Text) → length t ≡ length v → s ++ t ≡ u ++ v → (s ≡ u) × (t ≡ v)
same_parts [] t [] v l e = (refl, e)
same_parts [] t (c ∷ u) v l e = absurd (omega (arith, ap length e, length-append u v, l))
same_parts (c ∷ s) t [] v l e = absurd (omega (arith, ap length e, length-append s t, l))
same_parts (c ∷ s) t (d ∷ u) v l e =
    let (p, q) = same_parts s t u v l (ap rest e) in (cons_eq (ap (first c) e) p, q)
  where
    rest : Text → Text
    rest [] = []
    rest (x ∷ xs) = xs

    first : ℕ → Text → ℕ
    first x [] = x
    first x (y ∷ ys) = y

    cons_eq : {x y : ℕ} {xs ys : Text} → x ≡ y → xs ≡ ys → x ∷ xs ≡ y ∷ ys
    cons_eq p q = cc

-- Candidates with dates of one length have the same key only of the same certificate and date.
dedupe_key_of-same :
    (c d : RenewalCandidate)
    → length c.expiration_date ≡ length d.expiration_date
    → dedupe_key_of c ≡ dedupe_key_of d
    → (c.certificate_id ≡ d.certificate_id) × (c.expiration_date ≡ d.expiration_date)
unfolding dedupe_key_of
dedupe_key_of-same c d l e =
    let (start, date) =
      same_parts _ c.expiration_date _ d.expiration_date l
        (append_cancel_right _ _ (codes ":v1") e) in
    (append_cancel_left (codes "renewal:") _ _ (append_cancel_right _ _ (codes ":") start), date)

same_dedupe_key :
    (c d : RenewalCandidate)
    → d.certificate_id ≡ c.certificate_id
    → d.expiration_date ≡ c.expiration_date
    → dedupe_key_of d ≡ dedupe_key_of c
unfolding dedupe_key_of
same_dedupe_key c d p q =
    ap (λ x. codes "renewal:" ++ x ++ codes ":" ++ d.expiration_date ++ codes ":v1") p
    ∙ ap (λ x. codes "renewal:" ++ c.certificate_id ++ codes ":" ++ x ++ codes ":v1") q

-- Once a renewal reminder was created for an expiration date of a certificate, the organization gets
-- no second one for that certificate and date, whatever the workers of the service do in between and
-- whether the first was sent or failed; and a candidate whose key is the same, with a date of the same
-- length, is of that certificate and date, so that no other renewal is held back by the key.
pub renewed_once :
    (o : Text) (smtp again : Bool) (now later at at_later : ℕ) (c d : RenewalCandidate)
    (a b e : List ReminderRow)
    → create_reminder o (renewal_reminder smtp now c) at a ≡ some b
    → Steps b e
    → (d.certificate_id ≡ c.certificate_id
        → d.expiration_date ≡ c.expiration_date
        → create_reminder o (renewal_reminder again later d) at_later e ≡ none)
      × (length c.expiration_date ≡ length d.expiration_date
          → dedupe_key_of c ≡ dedupe_key_of d
          → (c.certificate_id ≡ d.certificate_id) × (c.expiration_date ≡ d.expiration_date))
unfolding renewal_reminder
renewed_once o smtp again now later at at_later c d a b e created steps = (
  λ p q. has_key-refused o (renewal_reminder again later d) at_later e (
      subst (λ key. has_key o key e ≡ true) (sym (same_dedupe_key c d p q))
        (Steps-has_key o (dedupe_key_of c) steps
          (created-has_key o (renewal_reminder smtp now c) at a b created))),
  dedupe_key_of-same c d,
)
