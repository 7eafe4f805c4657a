-- ===== src/Reminders/Delivery.antt =====
-- server/services/reminders.ts: the reminder cycle. What the transport answers and what the clock
-- shows are parameters of a run, as are what others do to the table while a submission is awaited and
-- the candidates that the database's joins select.
use opencoi.Base.{
  ℕ, ◌+◌, ◌-◌, Bool, true, false, not, ◌&&◌, Option, none, some, List, [], ◌∷◌, leb, ltb, ◌==◌,
  if◌then◌else◌, Text, text_eq, any, take, codes, truthy,
}
use opencoi.Reminders.{email, in_app, ReminderRow, is_email}
use opencoi.Reminders.Claim.{Claim, claim_reminder}
use opencoi.Reminders.Mark.{Mark, to_sent, to_failed, mark_reminder}

abbrev pub max_delivery_attempts : ℕ
max_delivery_attempts = 3

abbrev pub delivery_claim_lease_ms : ℕ
delivery_claim_lease_ms = 1800000

-- RETRY_BACKOFF_MS[attemptNumber - 1]
unfoldable pub retry_at_after : ℕ → ℕ → Option ℕ
retry_at_after attempt_number now =
    if attempt_number == 1
    then some (now + 900000)
    else if attempt_number == 2
    then some (now + 3600000)
    else none

-- What a failed delivery threw: an object or not, its `responseCode` where that is finite, its
-- `code` in upper case (empty where it has none), and the message that is recorded for it.
pub record DeliveryError : Type 0 where
  pub is_object : Bool
  pub response_code : Option ℕ
  pub code : Text
  pub message : Text

abbrev pub transient_transport_codes : List Text
transient_transport_codes =
    codes "EAI_AGAIN"
    ∷ codes "ECONNECTION"
    ∷ codes "ECONNREFUSED"
    ∷ codes "ECONNRESET"
    ∷ codes "EDNS"
    ∷ codes "EHOSTUNREACH"
    ∷ codes "ENETUNREACH"
    ∷ codes "ESOCKET"
    ∷ codes "ETIMEDOUT"
    ∷ []

abbrev pub permanent_transport_codes : List Text
permanent_transport_codes = codes "EAUTH" ∷ codes "EENVELOPE" ∷ codes "EMESSAGE" ∷ []

unfoldable pub transient_delivery_failure : DeliveryError → Bool
transient_delivery_failure e = if not e.is_object then true else elim e.response_code [
  | some code ↦ leb 400 code && ltb code 500
  | none ↦
      if any (text_eq e.code) transient_transport_codes
      then true
      else not (any (text_eq e.code) permanent_transport_codes)
]

-- The submission of a message: accepted, an error, or no answer before the deadline.
pub data Submission : Type 0 where
  accepted no_answer : Submission
  refused : DeliveryError → Submission

-- What one reminder of the loop meets: the clock at its claim and at its completion, the submission,
-- what others make of the table while it is awaited, and whether `beforeSentPersistence` throws.
pub record Moment : Type 0 where
  pub claimed_at : ℕ
  pub completed_at : ℕ
  pub submission : Submission
  pub during_submission : List ReminderRow → List ReminderRow
  pub hook_throws : Bool

pub data DeliveryResult : Type 0 where
  was_sent was_failed was_skipped threw : DeliveryResult

abbrev pub not_configured : DeliveryError
not_configured = record {
  is_object = true;
  response_code = none;
  code = [];
  message = codes "SMTP is not configured for this email reminder";
}

-- What the loop's `try` around the submission ends in, `accepted` where no message is to be sent.
unfoldable pub submit : Bool → ReminderRow → Submission → Submission
submit smtp reminder submission = elim reminder.channel [
  | in_app ↦ accepted
  | email ↦ elim reminder.recipient [
    | none ↦ refused not_configured
    | some to ↦ if smtp && truthy to then submission else refused not_configured
  ]
]

-- Whether a message is sent, which is awaited.
unfoldable pub is_submitted : Bool → ReminderRow → Bool
is_submitted smtp reminder =
    is_email reminder.channel
    && smtp
    && (elim reminder.recipient [ none ↦ false | some to ↦ truthy to ])

-- The table when the `try` around the submission ends.
unfoldable pub meanwhile : Bool → ReminderRow → Moment → List ReminderRow → List ReminderRow
meanwhile smtp reminder m rows =
    if is_submitted smtp reminder then m.during_submission rows else rows

-- The completion of a claim, with its `throw` where the mark was not recorded.
unfoldable pub recorded :
    DeliveryResult
    → List ReminderRow
    → Option (List ReminderRow × Bool)
    → List ReminderRow × DeliveryResult
recorded result before none = (before, threw)
recorded result before (some (after, true)) = (after, result)
recorded result before (some (after, false)) = (after, threw)

unfoldable pub sent_mark : ReminderRow → Claim → ℕ → Mark
sent_mark reminder claim at = record {
  id = reminder.id;
  status = to_sent;
  error_message = none;
  retry_at = none;
  claimed_at = some claim.claimed_at;
  attempt_number = some claim.attempt_number;
  stale_before = none;
  max_attempts = none;
  at = at;
}

unfoldable pub failed_mark : ReminderRow → Claim → ℕ → DeliveryError → Mark
failed_mark reminder claim at e = record {
  id = reminder.id;
  status = to_failed;
  error_message = some (take 500 e.message);
  retry_at =
      if is_email reminder.channel
        && ltb claim.attempt_number max_delivery_attempts
        && transient_delivery_failure e
      then retry_at_after claim.attempt_number at
      else none;
  claimed_at = some claim.claimed_at;
  attempt_number = some claim.attempt_number;
  stale_before = none;
  max_attempts = none;
  at = at;
}

-- The loop's body after the submission.
unfoldable pub after_submission :
    Text
    → ReminderRow
    → Moment
    → Claim
    → List ReminderRow
    → Submission
    → List ReminderRow × DeliveryResult
after_submission organization_id reminder m claim rows no_answer = (rows, threw)
after_submission organization_id reminder m claim rows (refused e) =
    recorded was_failed rows
      (mark_reminder organization_id (failed_mark reminder claim m.completed_at e) rows)
after_submission organization_id reminder m claim rows accepted =
    if is_email reminder.channel && m.hook_throws
    then (rows, threw)
    else recorded was_sent rows
        (mark_reminder organization_id (sent_mark reminder claim m.completed_at) rows)

-- The loop's body after the claim.
unfoldable pub after_claim :
    Bool
    → Text
    → ReminderRow
    → Moment
    → List ReminderRow × Option Claim
    → List ReminderRow × DeliveryResult
unfolding after_submission
after_claim smtp organization_id reminder m (rows, none) = (rows, was_skipped)
after_claim smtp organization_id reminder m (rows, some claim) =
    after_submission organization_id reminder m claim (meanwhile smtp reminder m rows)
      (submit smtp reminder m.submission)

-- The body of the loop over the due reminders.
unfoldable pub deliver_reminder :
    Bool → Text → ReminderRow → Moment → List ReminderRow → List ReminderRow × DeliveryResult
unfolding after_claim
deliver_reminder smtp organization_id reminder m rows =
    after_claim smtp organization_id reminder m (
      claim_reminder organization_id reminder.id m.claimed_at
        (some (m.claimed_at - delivery_claim_lease_ms)) max_delivery_attempts rows)
