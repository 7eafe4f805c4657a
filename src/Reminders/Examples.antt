-- ===== src/Reminders/Examples.antt =====
-- A reminder through two cycles: a refused submission, and its retry.
use mathlib.Core.List.{Memᴰ}
use native.Mathlib.Omega.{arith}
use opencoi.Base.{
  ℕ, ◌+◌, ◌≡◌, refl, true, false, none, some, List, [], ◌∷◌, codes, All, text_eq, any, filter, take,
  Option, inl, update_where, length,
}
use opencoi.Base.Sort.{compare_texts, sort, insert_sorted}
use opencoi.Reminders.{ReminderRow, email, pending, sent, failed_row}
use opencoi.Reminders.Claim.{
  Claim, claim_reminder, claimed_row, is_claimable, is_due, safe_max_attempts, list_due_reminders,
  compare_due, fail_exhausted_stale_reminder_claims, is_exhausted,
}
use opencoi.Reminders.Mark.{Mark, to_sent, mark_reminder, complete, sent_row, is_completed}
use opencoi.Reminders.Create.{create_reminder}
use opencoi.Reminders.Delivery.{
  Submission, accepted, refused, DeliveryError, deliver_reminder, after_claim, after_submission,
  submit, is_submitted, meanwhile, recorded, sent_mark, failed_mark, transient_delivery_failure,
  retry_at_after,
}
use opencoi.Reminders.Cycle.{
  RenewalCandidate, OrganizationRun, ReminderRunResult, run_reminder_cycle, run_organization,
  deliver_due, add_result, create_scheduled_reminders, renewal_reminder, recipient_of,
  dedupe_key_of,
}
use opencoi.Reminders.Steps.{Steps, done, IsSound, Steps-IsSound}
use opencoi.Reminders.Refines.{run_reminder_cycle-Steps, deliver_reminder-Steps, IsFair}
use opencoi.Reminders.Final.{Steps-stays}
use opencoi.Reminders.Renewals.{renewed_once}
use opencoi.Reminders.Delivery.{Moment}
use opencoi.Reminders.Ends.{Ends}
use opencoi.Reminders.Fencing.{claim_reminder-excludes, complete-fenced}

abbrev candidate : RenewalCandidate
candidate = record {
  vendor_id = codes "v1";
  contact_email = some (codes "a@b.c");
  certificate_id = codes "c1";
  expiration_date = codes "2026-12-31";
  new_id = codes "r1";
  inserted_at = 10000000;
  payload = codes "{}";
}

abbrev mailbox_full : DeliveryError
mailbox_full = record {
  is_object = true;
  response_code = some 452;
  code = [];
  message = codes "full";
}

abbrev run_at : ℕ → Submission → List RenewalCandidate → OrganizationRun
run_at now submission candidates = record {
  organization_id = codes "o1";
  candidates = candidates;
  created_at = now;
  scan_at = now;
  moments = λ i. record {
    claimed_at = now;
    completed_at = now + 100;
    submission = submission;
    during_submission = λ rows. rows;
    hook_throws = false;
  };
}

fair : (now : ℕ) (submission : Submission) (i : ℕ) → IsFair ((run_at now submission []).moments i)
fair now submission i = record { others = λ rows. done }

abbrev nothing : ReminderRunResult
nothing = record { created = 0; sent = 0; failed = 0; skipped = 0 }

cycle : OrganizationRun → List ReminderRow → List ReminderRow × Option ReminderRunResult
unfolding run_reminder_cycle run_organization deliver_due add_result create_scheduled_reminders
    renewal_reminder recipient_of dedupe_key_of create_reminder fail_exhausted_stale_reminder_claims
    is_exhausted list_due_reminders is_due compare_due compare_texts sort insert_sorted take filter
    any text_eq deliver_reminder after_claim after_submission submit is_submitted meanwhile recorded
    sent_mark failed_mark transient_delivery_failure retry_at_after claim_reminder claimed_row
    is_claimable safe_max_attempts mark_reminder complete sent_row failed_row update_where
cycle run rows = run_reminder_cycle true (run ∷ []) nothing rows

first : List ReminderRow
first = (cycle (run_at 10000000 (refused mailbox_full) (candidate ∷ [])) []).0

second : List ReminderRow
second = (cycle (run_at 10900100 accepted (candidate ∷ [])) first).0

first_fails :
    (cycle (run_at 10000000 (refused mailbox_full) (candidate ∷ [])) []).1
    ≡ some (record { created = 1; sent = 0; failed = 1; skipped = 0 })
unfolding cycle
first_fails = refl

second_sends :
    (cycle (run_at 10900100 accepted (candidate ∷ [])) first).1
    ≡ some (record { created = 0; sent = 1; failed = 0; skipped = 0 })
unfolding cycle first
second_sends = refl

run_reminder_cycle-Steps_example :
    Steps []
      (run_reminder_cycle true
        (run_at 10000000 (refused mailbox_full) (candidate ∷ []) ∷ [])
        nothing
        []).0
run_reminder_cycle-Steps_example =
    run_reminder_cycle-Steps true (run_at 10000000 (refused mailbox_full) (candidate ∷ []) ∷ [])
      nothing [] (fair 10000000 (refused mailbox_full), tt)

Steps-IsSound_example :
    All IsSound
      (run_reminder_cycle true
        (run_at 10000000 (refused mailbox_full) (candidate ∷ []) ∷ [])
        nothing
        []).0
Steps-IsSound_example = Steps-IsSound [] _ run_reminder_cycle-Steps_example tt

-- The reminder after its second cycle.
abbrev sent_reminder : ReminderRow
sent_reminder = record {
  id = codes "r1";
  organization_id = codes "o1";
  vendor_id = codes "v1";
  certificate_id = some (codes "c1");
  reminder_type = codes "renewal";
  channel = email;
  recipient = some (codes "a@b.c");
  scheduled_for = 10000000;
  status = sent;
  attempt_count = 2;
  last_attempt_at = some 10900100;
  sent_at = some 10900200;
  error_message = none;
  retry_eligible = false;
  next_attempt_at = none;
  dedupe_key = codes "renewal:c1:2026-12-31:v1";
  payload = codes "{}";
  created_at = 10000000;
  updated_at = 10900200;
}

second_rows : second ≡ sent_reminder ∷ []
unfolding second first cycle
second_rows = refl

Steps-stays_example :
    Memᴰ sent_reminder
      (run_reminder_cycle true
        (run_at 99000000 accepted (candidate ∷ []) ∷ [])
        nothing
        (sent_reminder ∷ [])).0
Steps-stays_example =
    Steps-stays (sent_reminder ∷ []) _ sent_reminder
      (run_reminder_cycle-Steps true (run_at 99000000 accepted (candidate ∷ []) ∷ []) nothing
        (sent_reminder ∷ []) (fair 99000000 accepted, tt))
      (inl refl) (Memᴰ.head refl)

-- A reminder that one worker claims at 10000000 and another, whose bound of staleness that is, takes
-- over later.
abbrev waiting : ReminderRow
waiting = record sent_reminder {
  status = pending;
  attempt_count = 0;
  last_attempt_at = none;
  sent_at = none;
}

claim_reminder-excludes_example :
    claim_reminder
      (codes "o1")
      (codes "r1")
      10000100
      (some 9000000)
      3
      (claim_reminder (codes "o1") (codes "r1") 10000000 none 3 (waiting ∷ [])).0
    ≡ ((claim_reminder (codes "o1") (codes "r1") 10000000 none 3 (waiting ∷ [])).0, none)
unfolding claim_reminder update_where is_claimable text_eq claimed_row
claim_reminder-excludes_example =
    claim_reminder-excludes (codes "o1") (codes "r1") 10000000 10000100 9000000 3 3 none
      (waiting ∷ []) (record { claimed_at = 10000000; attempt_number = 1 }) ((λ q. tt), tt) refl
      (omega arith)

abbrev late_mark : Mark
late_mark = record {
  id = codes "r1";
  status = to_sent;
  error_message = none;
  retry_at = none;
  claimed_at = some 10000000;
  attempt_number = some 1;
  stale_before = none;
  max_attempts = none;
  at = 20000000;
}

complete-fenced_example :
    complete
      (codes "o1")
      late_mark
      (is_completed late_mark)
      (sent_row 20000000)
      (claim_reminder
        (codes "o1")
        (codes "r1")
        13000000
        (some 11200000)
        3
        (claim_reminder (codes "o1") (codes "r1") 10000000 none 3 (waiting ∷ [])).0).0
    ≡ (
      (claim_reminder
          (codes "o1")
          (codes "r1")
          13000000
          (some 11200000)
          3
          (claim_reminder (codes "o1") (codes "r1") 10000000 none 3 (waiting ∷ [])).0).0,
      false,
    )
unfolding claim_reminder update_where is_claimable text_eq claimed_row safe_max_attempts
complete-fenced_example =
    complete-fenced (codes "o1") (codes "r1") 10000000 13000000 3 3 none (some 11200000)
      (waiting ∷ []) (record { claimed_at = 10000000; attempt_number = 1 })
      (record { claimed_at = 13000000; attempt_number = 2 }) late_mark (sent_row 20000000)
      ((λ q. tt), tt) refl refl refl refl

abbrev full_moment : Moment
full_moment = record {
  claimed_at = 10000000;
  completed_at = 10000100;
  submission = refused mailbox_full;
  during_submission = λ rows. rows;
  hook_throws = false;
}

-- The table after the candidate's reminder was created and its submission refused.
abbrev created : List ReminderRow
created = record waiting { created_at = 5; updated_at = 5 } ∷ []

abbrev again : RenewalCandidate
again = record candidate { new_id = codes "r2"; vendor_id = codes "v2" }

renewed_once_example :
    (codes "c1" ≡ codes "c1"
      → codes "2026-12-31" ≡ codes "2026-12-31"
      → create_reminder
          (codes "o1")
          (renewal_reminder false 99000000 again)
          99000000
          (deliver_reminder true (codes "o1") waiting full_moment created).0
        ≡ none)
    × (length (codes "2026-12-31") ≡ length (codes "2026-12-31")
        → dedupe_key_of candidate ≡ dedupe_key_of again
        → (codes "c1" ≡ codes "c1") × (codes "2026-12-31" ≡ codes "2026-12-31"))
unfolding create_reminder renewal_reminder recipient_of dedupe_key_of any
renewed_once_example =
    renewed_once (codes "o1") true false 10000000 99000000 5 99000000 candidate again [] created _
      refl
      (deliver_reminder-Steps true (codes "o1") waiting full_moment created
        (record { others = λ rows. done }))

abbrev full_claim : Claim
full_claim = record { claimed_at = 10000000; attempt_number = 1 }

full_claim_granted :
    (claim_reminder (codes "o1") (codes "r1") 10000000 (some 8200000) 3 (waiting ∷ [])).1
    ≡ some full_claim
unfolding claim_reminder update_where is_claimable text_eq claimed_row
full_claim_granted = refl
