-- ===== src/Reminders/Final.antt =====
-- What a step leaves as it is (server/db.ts): reminders that were sent or cancelled.
use mathlib.Core.List.{Memᴰ}
use opencoi.Base.{
  ℕ, ◌≡◌, ◌⊎◌, subst, ap, Bool, true, false, none, some, List, [], ◌∷◌, arith, Text, Bool-cases,
  inl, inr, if◌then◌else◌, some-inj, update_where,
}
use opencoi.Reminders.{ReminderRow, sent, cancelled, failed_row}
use opencoi.Reminders.Claim.{
  claim_reminder, claimed_row, is_claimable, fail_exhausted_stale_reminder_claims, is_exhausted,
}
use opencoi.Reminders.Mark.{Mark, complete}
use opencoi.Reminders.Create.{NewReminder, create_reminder}
use opencoi.Reminders.Steps.{
  Step, creates, claims, marks, expires, Steps, done, after_step, MarkChange, sends, fails, cancels,
  mark_reminder-MarkChange,
}

abbrev pub IsFinal : ReminderRow → Type 0
IsFinal r = (r.status ≡ sent) ⊎ (r.status ≡ cancelled)

-- A row that fails the test stays.
update_where-stays :
    (test : ReminderRow → Bool) (change : ReminderRow → ReminderRow) (rows : List ReminderRow)
    (r : ReminderRow)
    → test r ≡ false
    → Memᴰ r rows
    → Memᴰ r (update_where test change rows).0
unfolding update_where
update_where-stays test change [] r k m = elim m [ ]
update_where-stays test change (x ∷ rows) r k (Memᴰ.head e) =
    rw (subst (λ y. test y ≡ false) e k) (Memᴰ.head e)
update_where-stays test change (x ∷ rows) r k (Memᴰ.tail m) = elim (Bool-cases (test x)) [
  | inl e ↦ rw e (Memᴰ.tail (update_where-stays test change rows r k m))
  | inr e ↦ rw e (Memᴰ.tail (update_where-stays test change rows r k m))
]

MarkChange-final :
    (m : Mark) (test : ReminderRow → Bool) (change : ReminderRow → ReminderRow) (r : ReminderRow)
    → MarkChange m test change
    → IsFinal r
    → test r ≡ false
MarkChange-final m _ _ r sends h = ground arith
MarkChange-final m _ _ r fails h = ground arith
MarkChange-final m _ _ r cancels h = ground arith

guard_passed : (b : Bool) (x y : List ReminderRow) → (if b then none else some x) ≡ some y → x ≡ y
guard_passed true x y h = ground arith
guard_passed false x y h = some-inj h

create_reminder-stays :
    (o : Text) (input : NewReminder) (at : ℕ) (a b : List ReminderRow) (r : ReminderRow)
    → create_reminder o input at a ≡ some b
    → Memᴰ r a
    → Memᴰ r b
unfolding create_reminder
create_reminder-stays o input at a b r e m =
    subst (λ x. Memᴰ r x) (guard_passed _ _ _ e) (Memᴰ.tail m)

Step-stays : {a b : List ReminderRow} (r : ReminderRow) → Step a b → IsFinal r → Memᴰ r a → Memᴰ r b
unfolding claim_reminder fail_exhausted_stale_reminder_claims is_claimable is_exhausted complete
Step-stays r (creates o input at a b e) h m = create_reminder-stays o input at a b r e m
Step-stays r (claims o id at stale a) h m =
    update_where-stays _ (claimed_row at) a r (ground arith) m
Step-stays r (marks o k a b changed s e) h m =
    let (test, change, c, q) = mark_reminder-MarkChange o k a b changed s.no_claim e in
    subst (λ x. Memᴰ r x) (ap (λ x. x.0) q)
      (update_where-stays _ change a r (ground (arith, MarkChange-final k test change r c h)) m)
Step-stays r (expires o stale message at a) h m =
    update_where-stays _ (failed_row (some message) none at) a r (ground arith) m

-- A reminder that was sent or cancelled stays in the table as it is, whatever the service does after
-- that: it is never claimed, and so never submitted, again.
pub Steps-stays :
    (a b : List ReminderRow) (r : ReminderRow) → Steps a b → IsFinal r → Memᴰ r a → Memᴰ r b
Steps-stays a b r done h m = m
Steps-stays a b r (after_step s p) h m = Steps-stays _ b r p h (Step-stays r s h m)
