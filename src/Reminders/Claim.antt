-- ===== src/Reminders/Claim.antt =====
-- server/db.ts: which reminders are due, and the claim of one.
use opencoi.Base.{
  ℕ, ◌+◌, Bool, false, ◌&&◌, ◌||◌, Option, none, some, List, [], ◌∷◌, leb, ltb, if◌then◌else◌,
  ◌>>=◌, Text, text_eq, filter, compare, Ordering, take, update_where,
}
use opencoi.Base.Sort.{sort, or_else, compare_texts}
use opencoi.Reminders.{
  processing, ReminderRow, is_pending, is_processing, is_failed, is_email, at_most, at_most?,
  is_row, count, failed_row,
}

-- `Math.max(1, Math.min(10, Math.trunc(n)))` of a natural number
unfoldable pub safe_max_attempts : ℕ → ℕ
safe_max_attempts n = let m = if ltb n 10 then n else 10 in if ltb 1 m then m else 1

-- `WHERE` of `listDueReminders` after the organization.
unfoldable pub is_due : ℕ → ℕ → Option ℕ → ReminderRow → Bool
is_due at max_attempts stale_before r =
    is_pending r.status && leb r.scheduled_for at
    || is_failed r.status
      && is_email r.channel
      && r.retry_eligible
      && at_most r.next_attempt_at at
      && ltb r.attempt_count max_attempts
    || is_processing r.status
      && at_most? r.last_attempt_at stale_before
      && ltb r.attempt_count max_attempts

-- `ORDER BY scheduled_for, id`, ids by their code units.
unfoldable pub compare_due : ReminderRow → ReminderRow → Ordering
compare_due l r = or_else (compare l.scheduled_for r.scheduled_for) (compare_texts l.id r.id)

-- The limit is from 1 to 500.
unfoldable pub list_due_reminders :
    Text → ℕ → ℕ → ℕ → Option ℕ → List ReminderRow → List ReminderRow
list_due_reminders organization_id at limit max_attempts stale_before rows =
    let low = if ltb limit 500 then limit else 500 in
    take (if ltb 1 low then low else 1) (
      sort compare_due (
        filter
          (λ (r : ReminderRow).
            text_eq r.organization_id organization_id
            && is_due at (safe_max_attempts max_attempts) stale_before r)
          rows))

-- `WHERE` of `claimReminder` after the organization and the id.
unfoldable pub is_claimable : ℕ → ℕ → Option ℕ → ReminderRow → Bool
is_claimable at max_attempts stale_before r =
    is_pending r.status && leb r.scheduled_for at
    || is_failed r.status && r.retry_eligible && at_most r.next_attempt_at at
    || is_processing r.status
      && at_most? r.last_attempt_at stale_before
      && ltb r.attempt_count max_attempts

unfoldable pub claimed_row : ℕ → ReminderRow → ReminderRow
claimed_row at r = record r {
  status = processing;
  attempt_count = r.attempt_count + 1;
  last_attempt_at = some at;
  retry_eligible = false;
  next_attempt_at = none;
  updated_at = at;
}

pub record Claim : Type 0 where
  pub claimed_at : ℕ
  pub attempt_number : ℕ

-- The first row that `RETURNING` gives.
abbrev pub claim_of : List ReminderRow → Option Claim
claim_of [] = none
claim_of (r ∷ rs) =
    r.last_attempt_at >>= λ t. some (record { claimed_at = t; attempt_number = r.attempt_count })

unfoldable pub claim_reminder :
    Text → Text → ℕ → Option ℕ → ℕ → List ReminderRow → List ReminderRow × Option Claim
claim_reminder organization_id id at stale_before max_attempts rows =
    let changed =
      update_where
        (λ (r : ReminderRow).
          is_row organization_id id r
          && is_claimable at (safe_max_attempts max_attempts) stale_before r)
        (claimed_row at) rows in
    (changed.0, claim_of changed.1)

-- `WHERE` of `failExhaustedStaleReminderClaims` after the organization.
unfoldable pub is_exhausted : ℕ → ℕ → ReminderRow → Bool
is_exhausted stale_before max_attempts r =
    is_processing r.status
    && at_most r.last_attempt_at stale_before
    && leb max_attempts r.attempt_count

unfoldable pub fail_exhausted_stale_reminder_claims :
    Text → ℕ → ℕ → Text → ℕ → List ReminderRow → List ReminderRow × ℕ
fail_exhausted_stale_reminder_claims organization_id stale_before max_attempts error_message at
      rows =
    let changed =
      update_where
        (λ (r : ReminderRow).
          text_eq r.organization_id organization_id
          && is_exhausted stale_before (safe_max_attempts max_attempts) r)
        (failed_row (some error_message) none at) rows in
    (changed.0, count changed.1)
