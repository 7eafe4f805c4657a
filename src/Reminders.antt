-- ===== src/Reminders.antt =====
-- server/db.ts: the reminders of one organization in its repository. A time is the number of
-- milliseconds of its ISO text, whose order is the order of the texts; an SQL statement is a
-- function from the rows of the table to the rows after it and what it returns.
pub mod Claim
pub mod Mark
pub mod Create
pub mod Delivery
pub mod Cycle
pub mod Steps
pub mod Refines
pub mod Final
pub mod Held
pub mod Fencing
pub mod Claimed
pub mod Ends
pub mod Keys
pub mod Renewals
pub mod Settles
mod Examples
use opencoi.Base.{
  ℕ, ◌+◌, ◌≤◌, Bool, true, false, not, ◌&&◌, ◌||◌, Option, none, some, List, [], ◌∷◌, ◌++◌, leb,
  ltb, ◌==◌, if◌then◌else◌, ◌>>=◌, Text, text_eq, filter, is_some, any, compare, Ordering, take,
}

pub data Channel : Type 0 where
  email in_app : Channel

pub data ReminderStatus : Type 0 where
  pending processing sent cancelled failed : ReminderStatus

pub record ReminderRow : Type 0 where
  pub id : Text
  pub organization_id : Text
  pub vendor_id : Text
  pub certificate_id : Option Text
  pub reminder_type : Text
  pub channel : Channel
  pub recipient : Option Text
  pub scheduled_for : ℕ
  pub status : ReminderStatus
  pub attempt_count : ℕ
  pub last_attempt_at : Option ℕ
  pub sent_at : Option ℕ
  pub error_message : Option Text
  pub retry_eligible : Bool
  pub next_attempt_at : Option ℕ
  pub dedupe_key : Text
  pub payload : Text
  pub created_at : ℕ
  pub updated_at : ℕ

abbrev pub is_pending : ReminderStatus → Bool
is_pending pending = true
is_pending _ = false

abbrev pub is_processing : ReminderStatus → Bool
is_processing processing = true
is_processing _ = false

abbrev pub is_failed : ReminderStatus → Bool
is_failed failed = true
is_failed _ = false

abbrev pub is_email : Channel → Bool
is_email email = true
is_email in_app = false

-- `column IS NOT NULL AND column <= bound`
abbrev pub at_most : Option ℕ → ℕ → Bool
at_most none bound = false
at_most (some t) bound = leb t bound

-- `? IS NOT NULL AND column <= ?`
abbrev pub at_most? : Option ℕ → Option ℕ → Bool
at_most? column none = false
at_most? column (some bound) = at_most column bound

abbrev pub is_row : Text → Text → ReminderRow → Bool
is_row organization_id id r = text_eq r.organization_id organization_id && text_eq r.id id

abbrev pub count {ℓ} : {A : Type ℓ} → List A → ℕ
count [] = 0
count (x ∷ xs) = count xs + 1

unfoldable pub failed_row : Option Text → Option ℕ → ℕ → ReminderRow → ReminderRow
failed_row error_message retry_at at r = record r {
  status = failed;
  error_message = error_message;
  retry_eligible = is_some retry_at;
  next_attempt_at = retry_at;
  updated_at = at;
}
