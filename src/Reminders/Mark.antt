-- ===== src/Reminders/Mark.antt =====
-- server/db.ts: `markReminder`.
use opencoi.Base.{
  ℕ, Bool, true, false, not, ◌&&◌, ◌||◌, Option, none, some, List, leb, ◌==◌, if◌then◌else◌, Text,
  is_some, update_where,
}
use opencoi.Reminders.{
  sent, cancelled, ReminderRow, is_pending, is_processing, is_failed, is_row, count, failed_row,
}
use opencoi.Reminders.Claim.{claim_reminder}

-- The statuses that `markReminder` takes.
pub data MarkStatus : Type 0 where
  to_processing to_sent to_cancelled to_failed : MarkStatus

pub record Mark : Type 0 where
  pub id : Text
  pub status : MarkStatus
  pub error_message : Option Text
  pub retry_at : Option ℕ
  pub claimed_at : Option ℕ
  pub attempt_number : Option ℕ
  pub stale_before : Option ℕ
  pub max_attempts : Option ℕ
  pub at : ℕ

-- The guard on `retryAt`: whether `markReminder` throws.
abbrev pub is_bad_retry : Mark → Bool
is_bad_retry m = elim m.retry_at [
  | none ↦ false
  | some t ↦ elim m.status [ to_failed ↦ leb t m.at | _ ↦ true ]
]

-- The guard on a completion: it names its claim and an attempt from 1 on.
abbrev pub names_attempt : Mark → Bool
names_attempt m =
    is_some m.claimed_at && (elim m.attempt_number [ none ↦ false | some n ↦ leb 1 n ])

abbrev pub equals : Option ℕ → Option ℕ → Bool
equals (some a) (some b) = a == b
equals _ _ = false

-- The row of a completion, that of the claim which completes.
abbrev pub is_completed : Mark → ReminderRow → Bool
is_completed m r =
    is_processing r.status
    && equals r.last_attempt_at m.claimed_at
    && equals (some r.attempt_count) m.attempt_number

unfoldable pub sent_row : ℕ → ReminderRow → ReminderRow
sent_row at r = record r {
  status = sent;
  sent_at = some at;
  error_message = none;
  retry_eligible = false;
  next_attempt_at = none;
  updated_at = at;
}

unfoldable pub cancelled_row : Option Text → ℕ → ReminderRow → ReminderRow
cancelled_row error_message at r = record r {
  status = cancelled;
  error_message = error_message;
  retry_eligible = false;
  next_attempt_at = none;
  updated_at = at;
}

-- The `UPDATE` of `markReminder`, by its status.
unfoldable pub complete :
    Text
    → Mark
    → (ReminderRow → Bool)
    → (ReminderRow → ReminderRow)
    → List ReminderRow
    → List ReminderRow × Bool
complete organization_id m test change rows =
    let changed =
      update_where (λ (r : ReminderRow). is_row organization_id m.id r && test r) change rows in
    (changed.0, count changed.1 == 1)

abbrev pub or_one : Option ℕ → ℕ
or_one none = 1
or_one (some n) = n

-- `none` where `markReminder` throws, which it does before it changes anything.
unfoldable pub mark_reminder : Text → Mark → List ReminderRow → Option (List ReminderRow × Bool)
unfolding complete
mark_reminder organization_id m rows = elim m.status [
  | to_processing ↦
      let claimed =
        claim_reminder organization_id m.id m.at m.stale_before (or_one m.max_attempts) rows in
      some (claimed.0, is_some claimed.1)
  | to_sent ↦
      if is_bad_retry m || not (names_attempt m)
      then none
      else some (complete organization_id m (is_completed m) (sent_row m.at) rows)
  | to_failed ↦
      if is_bad_retry m || not (names_attempt m)
      then none
      else some (
          complete organization_id m (is_completed m) (failed_row m.error_message m.retry_at m.at)
            rows)
  | to_cancelled ↦
      if is_bad_retry m
      then none
      else some (
          complete organization_id m
            (λ (r : ReminderRow). is_pending r.status || is_failed r.status)
            (cancelled_row m.error_message m.at) rows)
]
