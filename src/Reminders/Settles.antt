-- ===== src/Reminders/Settles.antt =====
-- server/services/reminders.ts: how one reminder of a cycle ends, and what of it is recorded.
use opencoi.Base.{◌≡◌, List, Text}
use opencoi.Reminders.{ReminderRow}
use opencoi.Reminders.Claim.{Claim}
use opencoi.Reminders.Mark.{Mark}
use opencoi.Reminders.Delivery.{Moment, Submission, DeliveryResult}
use opencoi.Reminders.Claimed.{rows_of, Leaves}
use opencoi.Reminders.Ends.{Ends}

abbrev Result : Type 0
Result = List ReminderRow × DeliveryResult

module _ (o : Text) (r : ReminderRow) (m : Moment) (c : Claim) (rows : List ReminderRow) where
  abbrev EndsAs : Submission → Result → Type 0
  EndsAs s x = Leaves o r.id x.0 (λ d. (d.attempt_count ≡ c.attempt_number) × Ends r m c d s x.1)

-- While the submission is awaited others leave the reminder alone.
pub record IsUndisturbed (o : Text) (r : ReminderRow) (m : Moment) : Type 0 where
  pub same :
      (rows : List ReminderRow) → rows_of o r.id (m.during_submission rows) ≡ rows_of o r.id rows
