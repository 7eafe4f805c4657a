-- ===== src/Reminders/Create.antt =====
-- server/db.ts: `createReminder`.
use opencoi.Base.{
  ℕ, false, ◌&&◌, ◌||◌, Option, none, some, List, ◌∷◌, if◌then◌else◌, Text, text_eq, any,
}
use opencoi.Reminders.{Channel, email, pending, ReminderRow}

pub record NewReminder : Type 0 where
  pub id : Text
  pub vendor_id : Text
  pub certificate_id : Option Text
  pub reminder_type : Text
  pub channel : Option Channel
  pub recipient : Option Text
  pub scheduled_for : ℕ
  pub dedupe_key : Text
  pub payload : Text

abbrev pub or_email : Option Channel → Channel
or_email none = email
or_email (some c) = c

-- `INSERT` with the defaults of the table; `none` where an id or the organization's key stands
-- already. The other constraints of the table, on keys of other tables, are taken to hold.
unfoldable pub create_reminder :
    Text → NewReminder → ℕ → List ReminderRow → Option (List ReminderRow)
create_reminder organization_id input timestamp rows =
    if any
      (λ (r : ReminderRow).
        text_eq r.id input.id
        || text_eq r.organization_id organization_id && text_eq r.dedupe_key input.dedupe_key)
      rows
    then none
    else some (
        record {
          id = input.id;
          organization_id = organization_id;
          vendor_id = input.vendor_id;
          certificate_id = input.certificate_id;
          reminder_type = input.reminder_type;
          channel = or_email input.channel;
          recipient = input.recipient;
          scheduled_for = input.scheduled_for;
          status = pending;
          attempt_count = 0;
          last_attempt_at = none;
          sent_at = none;
          error_message = none;
          retry_eligible = false;
          next_attempt_at = none;
          dedupe_key = input.dedupe_key;
          payload = input.payload;
          created_at = timestamp;
          updated_at = timestamp;
        }
        ∷ rows)
