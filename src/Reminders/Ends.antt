-- ===== src/Reminders/Ends.antt =====
-- server/services/reminders.ts: what a reminder of the loop ends in, described by the row that is left.
use opencoi.Base.{ℕ, ◌+◌, ◌*◌, ◌≤◌, ◌≡◌, true, false, Option, none, some, ◌&&◌, is_some, take}
use opencoi.Reminders.{ReminderRow, processing, sent, failed, is_email}
use opencoi.Reminders.Claim.{Claim}
use opencoi.Reminders.Delivery.{
  Moment, Submission, accepted, no_answer, refused, DeliveryError, DeliveryResult, was_sent,
  was_failed, threw, transient_delivery_failure,
}

-- When a reminder that failed is due again: 15 minutes after a first attempt and an hour after a second one,
-- where a message by mail failed for a while only.
pub record IsRetry (r : ReminderRow) (c : Claim) (e : DeliveryError) (at : ℕ) (due : Option ℕ)
    : Type 0 where
  pub first :
      is_email r.channel ≡ true
      → transient_delivery_failure e ≡ true
      → c.attempt_number ≡ 1
      → due ≡ some (at + 15 * 60 * 1000)
  pub second :
      is_email r.channel ≡ true
      → transient_delivery_failure e ≡ true
      → c.attempt_number ≡ 2
      → due ≡ some (at + 60 * 60 * 1000)
  pub last : 3 ≤ c.attempt_number → due ≡ none
  pub permanent : transient_delivery_failure e ≡ false → due ≡ none
  pub in_app : is_email r.channel ≡ false → due ≡ none

-- What a reminder ends in by the end of its submission, and the row that is left of it.
pub data Ends (r : ReminderRow) (m : Moment) (c : Claim) (d : ReminderRow)
    : Submission → DeliveryResult → Type 0 where
  ends_sent :
      (is_email r.channel && m.hook_throws) ≡ false
      → d.status ≡ sent
      → d.sent_at ≡ some m.completed_at
      → d.retry_eligible ≡ false
      → Ends r m c d accepted was_sent
  ends_failed :
      (e : DeliveryError)
      → d.status ≡ failed
      → d.error_message ≡ some (take 500 e.message)
      → d.retry_eligible ≡ is_some d.next_attempt_at
      → IsRetry r c e m.completed_at d.next_attempt_at
      → Ends r m c d (refused e) was_failed
  ends_unanswered :
      d.status ≡ processing → d.last_attempt_at ≡ some c.claimed_at → Ends r m c d no_answer threw
  ends_unrecorded :
      (is_email r.channel && m.hook_throws) ≡ true
      → d.status ≡ processing
      → d.last_attempt_at ≡ some c.claimed_at
      → Ends r m c d accepted threw
