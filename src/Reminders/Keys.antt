-- ===== src/Reminders/Keys.antt =====
-- The keys of the table of reminders (server/db.ts): what `UNIQUE` and `PRIMARY KEY` promise holds
-- after every step of the service.
use opencoi.Base.{
  Apart, KeepsKeys, update_where-Apart, Apart-AtMostOne, ℕ, ◌≡◌, refl, subst, ap, Bool, true, false,
  Option, none, some, List, arith, Text, ◌&&◌, ◌||◌, if◌then◌else◌, text_eq, some-inj, All-of_any,
  text_eq_refl, text_eq_sound,
}
use opencoi.Reminders.{ReminderRow, is_row, failed_row}
use opencoi.Reminders.Claim.{claim_reminder, claimed_row, fail_exhausted_stale_reminder_claims}
use opencoi.Reminders.Mark.{Mark, complete, sent_row, cancelled_row}
use opencoi.Reminders.Create.{NewReminder, create_reminder}
use opencoi.Reminders.Steps.{
  Step, creates, claims, marks, expires, Steps, done, after_step, MarkChange, sends, fails, cancels,
  mark_reminder-MarkChange,
}
use opencoi.Reminders.Held.{IsUnique}

-- Two rows with the same id, or with the same key within one organization.
unfoldable pub same_keys : ReminderRow → ReminderRow → Bool
same_keys new r =
    text_eq r.id new.id
    || text_eq r.organization_id new.organization_id && text_eq r.dedupe_key new.dedupe_key

abbrev pub IsKeyed : List ReminderRow → Type 0
IsKeyed = Apart same_keys

claimed_row-KeepsKeys : (at : ℕ) → KeepsKeys same_keys (claimed_row at)
unfolding claimed_row same_keys
claimed_row-KeepsKeys at r s = (refl, refl)

failed_row-KeepsKeys :
    (m : Option Text) (t : Option ℕ) (at : ℕ) → KeepsKeys same_keys (failed_row m t at)
unfolding failed_row same_keys
failed_row-KeepsKeys m t at r s = (refl, refl)

MarkChange-KeepsKeys :
    (m : Mark) (test : ReminderRow → Bool) (change : ReminderRow → ReminderRow)
    → MarkChange m test change
    → KeepsKeys same_keys change
unfolding sent_row cancelled_row failed_row same_keys
MarkChange-KeepsKeys m _ _ sends r s = (refl, refl)
MarkChange-KeepsKeys m _ _ fails r s = (refl, refl)
MarkChange-KeepsKeys m _ _ cancels r s = (refl, refl)

guard_split :
    (b : Bool) (x y : List ReminderRow)
    → (if b then none else some x) ≡ some y
    → (b ≡ false) × (x ≡ y)
guard_split true x y h = ground arith
guard_split false x y h = (refl, some-inj h)

create_reminder-IsKeyed :
    (o : Text) (input : NewReminder) (at : ℕ) (a b : List ReminderRow)
    → create_reminder o input at a ≡ some b
    → IsKeyed a
    → IsKeyed b
unfolding create_reminder same_keys
create_reminder-IsKeyed o input at a b e h =
    let (fresh, q) = guard_split _ _ _ e in subst IsKeyed q (All-of_any _ a fresh, h)

Step-IsKeyed : {a b : List ReminderRow} → Step a b → IsKeyed a → IsKeyed b
unfolding claim_reminder fail_exhausted_stale_reminder_claims complete
Step-IsKeyed (creates o input at a b e) h = create_reminder-IsKeyed o input at a b e h
Step-IsKeyed (claims o id at stale a) h =
    update_where-Apart same_keys _ (claimed_row at) a (claimed_row-KeepsKeys at) h
Step-IsKeyed (marks o k a b changed s e) h =
    let (test, change, c, q) = mark_reminder-MarkChange o k a b changed s.no_claim e in
    subst IsKeyed (ap (λ x. x.0) q)
      (update_where-Apart same_keys _ change a (MarkChange-KeepsKeys k test change c) h)
Step-IsKeyed (expires o stale message at a) h =
    update_where-Apart same_keys _ (failed_row (some message) none at) a
      (failed_row-KeepsKeys (some message) none at) h

other_id :
    (o id : Text) (r s : ReminderRow)
    → is_row o id r ≡ true
    → same_keys r s ≡ false
    → is_row o id s ≡ false
unfolding same_keys
other_id o id r s q k =
    ground (arith, text_eq_sound s.id id, text_eq_sound r.id id, text_eq_refl r.id)

IsKeyed-IsUnique : (o id : Text) (rows : List ReminderRow) → IsKeyed rows → IsUnique o id rows
IsKeyed-IsUnique o id = Apart-AtMostOne same_keys (is_row o id) (other_id o id)

-- Whatever the workers of the service do, no two reminders come to have the same id, nor the same
-- key within one organization, so that a claim finds one row at most.
pub Steps-IsKeyed :
    (a b : List ReminderRow) → Steps a b → IsKeyed a → IsKeyed b × ((o id : Text) → IsUnique o id b)
Steps-IsKeyed a b done h = (h, λ o id. IsKeyed-IsUnique o id b h)
Steps-IsKeyed a b (after_step s p) h = Steps-IsKeyed _ b p (Step-IsKeyed s h)
