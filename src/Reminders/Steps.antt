-- ===== src/Reminders/Steps.antt =====
-- The changes that the reminder service makes to the table, by any number of workers in any order
-- (server/services/reminders.ts, server/db.ts), and what each keeps.
use opencoi.Base.{
  ℕ, ◌≤◌, ◌<◌, ◌≡◌, ◌≢◌, refl, subst, ap, some-inj, ◌||◌, Bool, true, false, Option, none, some,
  List, arith, is_some, Text, All, if◌then◌else◌, All-update_where,
}
use opencoi.Reminders.{
  ReminderRow, pending, processing, sent, failed, failed_row, is_pending, is_failed,
}
use opencoi.Reminders.Claim.{
  claim_reminder, claimed_row, is_claimable, safe_max_attempts,
  fail_exhausted_stale_reminder_claims,
}
use opencoi.Reminders.Mark.{
  Mark, MarkStatus, to_processing, to_sent, to_cancelled, to_failed, mark_reminder, complete,
  sent_row, cancelled_row, is_completed,
}
use opencoi.Reminders.Create.{NewReminder, create_reminder}
use opencoi.Reminders.Delivery.{max_delivery_attempts}

-- The marks of the service: no claim, and a retry only of an attempt before the last.
pub record IsServiceMark (m : Mark) : Type 0 where
  pub no_claim : m.status ≢ to_processing
  pub retries : is_some m.retry_at ≡ true → (n : ℕ) × (m.attempt_number ≡ some n) × (n < 3)

pub data Step : List ReminderRow → List ReminderRow → Type 0 where
  creates :
      (organization_id : Text) (input : NewReminder) (at : ℕ) (before after : List ReminderRow)
      → create_reminder organization_id input at before ≡ some after
      → Step before after
  claims :
      (organization_id id : Text) (at : ℕ) (stale_before : Option ℕ) (before : List ReminderRow)
      → Step before
          (claim_reminder organization_id id at stale_before max_delivery_attempts before).0
  marks :
      (organization_id : Text) (m : Mark) (before after : List ReminderRow) (changed : Bool)
      → IsServiceMark m
      → mark_reminder organization_id m before ≡ some (after, changed)
      → Step before after
  expires :
      (organization_id : Text) (stale_before : ℕ) (message : Text) (at : ℕ)
      (before : List ReminderRow)
      → Step before
          (fail_exhausted_stale_reminder_claims organization_id stale_before max_delivery_attempts
            message at before).0

pub data Steps : List ReminderRow → List ReminderRow → Type 0 where
  done : {rows : List ReminderRow} → Steps rows rows
  after_step : {a b c : List ReminderRow} → Step a b → Steps b c → Steps a c

pub Steps-trans : {a b c : List ReminderRow} → Steps a b → Steps b c → Steps a c
Steps-trans done q = q
Steps-trans (after_step s p) q = after_step s (Steps-trans p q)

-- What holds of each row.
pub record IsSound (r : ReminderRow) : Type 0 where
  pub attempts : r.attempt_count ≤ 3
  pub new : r.status ≡ pending → r.attempt_count ≡ 0
  pub claimed : r.status ≡ processing → (1 ≤ r.attempt_count) × (is_some r.last_attempt_at ≡ true)
  pub retried :
      r.retry_eligible ≡ true
      → (r.status ≡ failed) × (r.attempt_count < 3) × (is_some r.next_attempt_at ≡ true)
  pub delivered : r.status ≡ sent → is_some r.sent_at ≡ true

claimed_row-IsSound :
    (at : ℕ) (stale_before : Option ℕ) (r : ReminderRow)
    → is_claimable at (safe_max_attempts max_delivery_attempts) stale_before r ≡ true
    → IsSound r
    → IsSound (claimed_row at r)
unfolding is_claimable claimed_row safe_max_attempts
claimed_row-IsSound at stale_before r e h = ground arith

failed_row-IsSound :
    (message : Option Text) (retry_at : Option ℕ) (at : ℕ) (r : ReminderRow)
    → (is_some retry_at ≡ true → r.attempt_count < 3)
    → IsSound r
    → IsSound (failed_row message retry_at at r)
unfolding failed_row
failed_row-IsSound message retry_at at r e h = ground arith

sent_row-IsSound : (at : ℕ) (r : ReminderRow) → IsSound r → IsSound (sent_row at r)
unfolding sent_row
sent_row-IsSound at r h = ground arith

cancelled_row-IsSound :
    (message : Option Text) (at : ℕ) (r : ReminderRow)
    → IsSound r
    → IsSound (cancelled_row message at r)
unfolding cancelled_row
cancelled_row-IsSound message at r h = ground arith

guard_passed :
    (b : Bool) (x y : List ReminderRow × Bool) → (if b then none else some x) ≡ some y → x ≡ y
guard_passed true x y h = ground arith
guard_passed false x y h = some-inj h

complete-IsSound :
    (o : Text) (m : Mark) (test : ReminderRow → Bool) (change : ReminderRow → ReminderRow)
    (rows : List ReminderRow)
    → ((r : ReminderRow) → test r ≡ true → IsSound r → IsSound (change r))
    → All IsSound rows
    → All IsSound (complete o m test change rows).0
unfolding complete
complete-IsSound o m test change rows k h =
    All-update_where IsSound _ change (λ r e s. k r (ground arith) s) rows h

-- The three ways in which a mark of the service changes the rows of its id.
pub data MarkChange (m : Mark) : (ReminderRow → Bool) → (ReminderRow → ReminderRow) → Type 0 where
  sends : MarkChange m (is_completed m) (sent_row m.at)
  fails : MarkChange m (is_completed m) (failed_row m.error_message m.retry_at m.at)
  cancels :
      MarkChange m
        (λ r. is_pending r.status || is_failed r.status)
        (cancelled_row m.error_message m.at)

pub mark_reminder-MarkChange :
    (o : Text) (m : Mark) (rows after : List ReminderRow) (b : Bool)
    → m.status ≢ to_processing
    → mark_reminder o m rows ≡ some (after, b)
    → (test : ReminderRow → Bool) × (change : ReminderRow → ReminderRow) × MarkChange m test change
      × (complete o m test change rows ≡ (after, b))
unfolding mark_reminder
mark_reminder-MarkChange o m rows after b s e = by_status m.status refl
  where
    by_status :
        (st : MarkStatus)
        → m.status ≡ st
        → (test : ReminderRow → Bool) × (change : ReminderRow → ReminderRow) × MarkChange m test
            change
          × (complete o m test change rows ≡ (after, b))
    by_status to_processing q = absurd (s q)
    by_status to_sent q = (_, _, sends, guard_passed _ _ _ (rw q at e))
    by_status to_failed q = (_, _, fails, guard_passed _ _ _ (rw q at e))
    by_status to_cancelled q = (_, _, cancels, guard_passed _ _ _ (rw q at e))

MarkChange-IsSound :
    (m : Mark) (test : ReminderRow → Bool) (change : ReminderRow → ReminderRow)
    → IsServiceMark m
    → MarkChange m test change
    → (r : ReminderRow) → test r ≡ true
    → IsSound r
    → IsSound (change r)
MarkChange-IsSound m _ _ s sends r e h = sent_row-IsSound m.at r h
MarkChange-IsSound m _ _ s fails r e h =
    failed_row-IsSound m.error_message m.retry_at m.at r (λ k. ground (arith, s.retries k)) h
MarkChange-IsSound m _ _ s cancels r e h = cancelled_row-IsSound m.error_message m.at r h

mark_reminder-IsSound :
    (o : Text) (m : Mark) (rows after : List ReminderRow) (b : Bool)
    → IsServiceMark m
    → mark_reminder o m rows ≡ some (after, b)
    → All IsSound rows
    → All IsSound after
mark_reminder-IsSound o m rows after b s e h =
    let (test, change, c, q) = mark_reminder-MarkChange o m rows after b s.no_claim e in
    subst (All IsSound) (ap (λ x. x.0) q)
      (complete-IsSound o m test change rows (MarkChange-IsSound m test change s c) h)

create_reminder-IsSound :
    (o : Text) (input : NewReminder) (at : ℕ) (rows after : List ReminderRow)
    → create_reminder o input at rows ≡ some after
    → All IsSound rows
    → All IsSound after
unfolding create_reminder
create_reminder-IsSound o input at rows after e h = ground arith

Step-IsSound : {a b : List ReminderRow} → Step a b → All IsSound a → All IsSound b
unfolding claim_reminder fail_exhausted_stale_reminder_claims
Step-IsSound (creates o input at a b e) h = create_reminder-IsSound o input at a b e h
Step-IsSound (claims o id at stale a) h =
    All-update_where IsSound _ (claimed_row at)
      (λ r e s. claimed_row-IsSound at stale r (ground arith) s) a h
Step-IsSound (marks o m a b changed s e) h = mark_reminder-IsSound o m a b changed s e h
Step-IsSound (expires o stale message at a) h =
    All-update_where IsSound _ (failed_row (some message) none at)
      (λ r e s. failed_row-IsSound (some message) none at r (λ k. ground arith) s) a h

-- Whatever the workers of the service do, in any order and of any organization, each row stays
-- sound: a reminder is never attempted more than three times, a new one has no attempt, a claim and a
-- delivery have their times, and a retry waits only in a failed row with an attempt left.
pub Steps-IsSound : (a b : List ReminderRow) → Steps a b → All IsSound a → All IsSound b
Steps-IsSound a b done h = h
Steps-IsSound a b (after_step s p) h = Steps-IsSound _ b p (Step-IsSound s h)
