-- ===== src/Reminders/Cycle.antt =====
-- server/services/reminders.ts: `createScheduledReminders` and `runReminderCycle`.
use opencoi.Base.{
  ℕ, ◌+◌, ◌-◌, Bool, ◌&&◌, Option, none, some, List, [], ◌∷◌, ◌++◌, if◌then◌else◌, Text, codes, suc,
  truthy,
}
use opencoi.Reminders.{email, in_app, ReminderRow}
use opencoi.Reminders.Claim.{fail_exhausted_stale_reminder_claims, list_due_reminders}
use opencoi.Reminders.Create.{NewReminder, create_reminder}
use opencoi.Reminders.Delivery.{
  Moment, DeliveryResult, was_sent, was_failed, was_skipped, threw, deliver_reminder,
  max_delivery_attempts, delivery_claim_lease_ms,
}

pub record ReminderRunResult : Type 0 where
  pub created : ℕ
  pub sent : ℕ
  pub failed : ℕ
  pub skipped : ℕ

-- A row of `candidatesFor` with the id that the new reminder gets, the system's clock at its insert
-- and the JSON of its payload.
pub record RenewalCandidate : Type 0 where
  pub vendor_id : Text
  pub contact_email : Option Text
  pub certificate_id : Text
  pub expiration_date : Text
  pub new_id : Text
  pub inserted_at : ℕ
  pub payload : Text

-- `renewal:${certificate_id}:${expiration_date}:v1`
unfoldable pub dedupe_key_of : RenewalCandidate → Text
dedupe_key_of c =
    codes "renewal:" ++ c.certificate_id ++ codes ":" ++ c.expiration_date ++ codes ":v1"

-- A contact to write to: SMTP is configured and the address is not empty.
unfoldable pub recipient_of : Bool → RenewalCandidate → Option Text
recipient_of smtp c = elim c.contact_email [
  | none ↦ none
  | some e ↦ if smtp && truthy e then some e else none
]

unfoldable pub renewal_reminder : Bool → ℕ → RenewalCandidate → NewReminder
renewal_reminder smtp now c = record {
  id = c.new_id;
  vendor_id = c.vendor_id;
  certificate_id = some c.certificate_id;
  reminder_type = codes "renewal";
  channel = some (elim (recipient_of smtp c) [ none ↦ in_app | some e ↦ email ]);
  recipient = recipient_of smtp c;
  scheduled_for = now;
  dedupe_key = dedupe_key_of c;
  payload = c.payload;
}

-- The rows after the loop over the candidates, and how many it created: a candidate whose insert
-- meets a UNIQUE constraint is passed over.
unfoldable pub create_scheduled_reminders :
    Bool → Text → ℕ → List RenewalCandidate → List ReminderRow → List ReminderRow × ℕ
create_scheduled_reminders smtp organization_id now [] rows = (rows, 0)
create_scheduled_reminders smtp organization_id now (c ∷ cs) rows =
    elim (create_reminder organization_id (renewal_reminder smtp now c) c.inserted_at rows) [
      | none ↦ create_scheduled_reminders smtp organization_id now cs rows
      | some after ↦
          let rest = create_scheduled_reminders smtp organization_id now cs after in
          (rest.0, rest.1 + 1)
    ]

-- The counter that a reminder of the loop adds to, `none` where the loop throws.
unfoldable pub add_result : DeliveryResult → ReminderRunResult → Option ReminderRunResult
add_result was_sent r = some (record r { sent = r.sent + 1 })
add_result was_failed r = some (record r { failed = r.failed + 1 })
add_result was_skipped r = some (record r { skipped = r.skipped + 1 })
add_result threw r = none

-- The loop over the due reminders; the table keeps what was written before a `throw`.
unfoldable pub deliver_due :
    Bool
    → Text
    → List ReminderRow
    → (ℕ → Moment)
    → ℕ
    → ReminderRunResult
    → List ReminderRow
    → List ReminderRow × Option ReminderRunResult
deliver_due smtp organization_id [] moments i result rows = (rows, some result)
deliver_due smtp organization_id (d ∷ ds) moments i result rows =
    let delivered = deliver_reminder smtp organization_id d (moments i) rows in
    elim (add_result delivered.1 result) [
      | none ↦ (delivered.0, none)
      | some next ↦ deliver_due smtp organization_id ds moments (suc i) next delivered.0
    ]

-- What one organization of a cycle meets.
pub record OrganizationRun : Type 0 where
  pub organization_id : Text
  pub candidates : List RenewalCandidate
  pub created_at : ℕ
  pub scan_at : ℕ
  pub moments : ℕ → Moment

abbrev pub exhausted_claim_error : Text
exhausted_claim_error =
    codes
      "Delivery claim expired after the final attempt; the delivery outcome could not be confirmed"

unfoldable pub run_organization :
    Bool
    → OrganizationRun
    → ReminderRunResult
    → List ReminderRow
    → List ReminderRow × Option ReminderRunResult
run_organization smtp run result rows =
    let created =
      create_scheduled_reminders smtp run.organization_id run.created_at run.candidates rows in
    let stale_before = run.scan_at - delivery_claim_lease_ms in
    let expired =
      fail_exhausted_stale_reminder_claims run.organization_id stale_before max_delivery_attempts
        exhausted_claim_error run.scan_at created.0 in
    let due =
      list_due_reminders run.organization_id run.scan_at 200 max_delivery_attempts
        (some stale_before) expired.0 in
    deliver_due smtp run.organization_id due run.moments 0
      (record result { created = result.created + created.1; failed = result.failed + expired.1 })
      expired.0

-- The loop over the organizations.
unfoldable pub run_reminder_cycle :
    Bool
    → List OrganizationRun
    → ReminderRunResult
    → List ReminderRow
    → List ReminderRow × Option ReminderRunResult
run_reminder_cycle smtp [] result rows = (rows, some result)
run_reminder_cycle smtp (o ∷ os) result rows =
    let ran = run_organization smtp o result rows in
    elim ran.1 [ none ↦ (ran.0, none) | some next ↦ run_reminder_cycle smtp os next ran.0 ]
