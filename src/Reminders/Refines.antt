-- ===== src/Reminders/Refines.antt =====
-- server/services/reminders.ts: a cycle is made of the steps of the service.
use opencoi.Base.{
  ℕ, suc, ◌-◌, ◌≡◌, refl, Bool, true, false, Option, none, some, List, [], ◌∷◌, arith, Text,
  Bool-cases, inl, inr, Option-cases, ◌&&◌, All,
}
use opencoi.Reminders.{ReminderRow, is_email}
use opencoi.Reminders.Claim.{Claim}
use opencoi.Reminders.Mark.{Mark, mark_reminder}
use opencoi.Reminders.Create.{create_reminder}
use opencoi.Reminders.Delivery.{
  Moment, Submission, accepted, no_answer, refused, DeliveryError, DeliveryResult, recorded,
  sent_mark, failed_mark, submit, is_submitted, meanwhile, after_submission, after_claim,
  deliver_reminder, delivery_claim_lease_ms, retry_at_after,
}
use opencoi.Reminders.Cycle.{
  RenewalCandidate, renewal_reminder, create_scheduled_reminders, ReminderRunResult, add_result,
  deliver_due, OrganizationRun, run_organization, run_reminder_cycle,
}
use opencoi.Reminders.Steps.{
  IsServiceMark, Step, creates, claims, marks, expires, Steps, done, after_step, Steps-trans,
}

one : {a b : List ReminderRow} → Step a b → Steps a b
one s = after_step s done

sent_mark-IsServiceMark : (r : ReminderRow) (c : Claim) (at : ℕ) → IsServiceMark (sent_mark r c at)
unfolding sent_mark
sent_mark-IsServiceMark r c at = record {
  no_claim = λ q. ground arith;
  retries = λ q. ground arith;
}

failed_mark-IsServiceMark :
    (r : ReminderRow) (c : Claim) (at : ℕ) (e : DeliveryError)
    → IsServiceMark (failed_mark r c at e)
unfolding failed_mark retry_at_after
failed_mark-IsServiceMark r c at e = record {
  no_claim = λ q. ground arith;
  retries = λ q. (c.attempt_number, refl, ground arith);
}

recorded-Steps :
    (o : Text) (m : Mark) (result : DeliveryResult) (rows : List ReminderRow)
    → IsServiceMark m
    → Steps rows (recorded result rows (mark_reminder o m rows)).0
recorded-Steps o m result rows s = by_mark (mark_reminder o m rows) refl
  where
    by_mark :
        (x : Option (List ReminderRow × Bool))
        → mark_reminder o m rows ≡ x
        → Steps rows (recorded result rows x).0
    by_mark none q = unfold recorded in done
    by_mark (some (after, true)) q = unfold recorded in (one (marks o m rows after true s q))
    by_mark (some (after, false)) q = unfold recorded in (one (marks o m rows after false s q))

after_submission-Steps :
    (o : Text) (r : ReminderRow) (m : Moment) (c : Claim) (rows : List ReminderRow) (s : Submission)
    → Steps rows (after_submission o r m c rows s).0
unfolding after_submission
after_submission-Steps o r m c rows no_answer = done
after_submission-Steps o r m c rows (refused e) =
    recorded-Steps o _ _ rows (failed_mark-IsServiceMark r c m.completed_at e)
after_submission-Steps o r m c rows accepted =
    elim (Bool-cases (is_email r.channel && m.hook_throws)) [
      | inl e ↦ rw e done
      | inr e ↦ rw e (recorded-Steps o _ _ rows (sent_mark-IsServiceMark r c m.completed_at))
    ]

-- What others do while a submission is awaited are steps of the service too.
pub record IsFair (m : Moment) : Type 0 where
  pub others : (rows : List ReminderRow) → Steps rows (m.during_submission rows)

meanwhile-Steps :
    (smtp : Bool) (r : ReminderRow) (m : Moment) (rows : List ReminderRow)
    → IsFair m
    → Steps rows (meanwhile smtp r m rows)
unfolding meanwhile
meanwhile-Steps smtp r m rows f = elim (Bool-cases (is_submitted smtp r)) [
  | inl e ↦ rw e (f.others rows)
  | inr e ↦ rw e done
]

after_claim-Steps :
    (smtp : Bool) (o : Text) (r : ReminderRow) (m : Moment) (x : List ReminderRow × Option Claim)
    → IsFair m
    → Steps x.0 (after_claim smtp o r m x).0
unfolding after_claim
after_claim-Steps smtp o r m (rows, none) f = done
after_claim-Steps smtp o r m (rows, some c) f =
    Steps-trans (meanwhile-Steps smtp r m rows f)
      (after_submission-Steps o r m c _ (submit smtp r m.submission))

pub deliver_reminder-Steps :
    (smtp : Bool) (o : Text) (r : ReminderRow) (m : Moment) (rows : List ReminderRow)
    → IsFair m
    → Steps rows (deliver_reminder smtp o r m rows).0
unfolding deliver_reminder
deliver_reminder-Steps smtp o r m rows f =
    after_step (claims o r.id m.claimed_at (some (m.claimed_at - delivery_claim_lease_ms)) rows)
      (after_claim-Steps smtp o r m _ f)

create_scheduled_reminders-Steps :
    (smtp : Bool) (o : Text) (now : ℕ) (cs : List RenewalCandidate) (rows : List ReminderRow)
    → Steps rows (create_scheduled_reminders smtp o now cs rows).0
unfolding create_scheduled_reminders
create_scheduled_reminders-Steps smtp o now [] rows = done
create_scheduled_reminders-Steps smtp o now (c ∷ cs) rows =
    elim (Option-cases (create_reminder o (renewal_reminder smtp now c) c.inserted_at rows)) [
      | inl e ↦
          rw (e, create_scheduled_reminders) (create_scheduled_reminders-Steps smtp o now cs rows)
      | inr (after, e) ↦
          rw (e, create_scheduled_reminders)
            (after_step (creates o (renewal_reminder smtp now c) c.inserted_at rows after e)
              (create_scheduled_reminders-Steps smtp o now cs after))
    ]

deliver_due-Steps :
    (smtp : Bool) (o : Text) (ds : List ReminderRow) (moments : ℕ → Moment) (i : ℕ)
    (result : ReminderRunResult) (rows : List ReminderRow)
    → ((k : ℕ) → IsFair (moments k))
    → Steps rows (deliver_due smtp o ds moments i result rows).0
unfolding deliver_due
deliver_due-Steps smtp o [] moments i result rows f = done
deliver_due-Steps smtp o (d ∷ ds) moments i result rows f =
    let delivered = deliver_reminder-Steps smtp o d (moments i) rows (f i) in
    elim (Option-cases (add_result (deliver_reminder smtp o d (moments i) rows).1 result)) [
      | inl e ↦ rw (e, deliver_due) delivered
      | inr (next, e) ↦
          rw (e, deliver_due)
            (Steps-trans delivered (deliver_due-Steps smtp o ds moments (suc i) next _ f))
    ]

abbrev pub AreFair : OrganizationRun → Type 0
AreFair run = (i : ℕ) → IsFair (run.moments i)

run_organization-Steps :
    (smtp : Bool) (run : OrganizationRun) (result : ReminderRunResult) (rows : List ReminderRow)
    → AreFair run
    → Steps rows (run_organization smtp run result rows).0
unfolding run_organization
run_organization-Steps smtp run result rows f =
    Steps-trans
      (create_scheduled_reminders-Steps smtp run.organization_id run.created_at run.candidates rows)
      (after_step (expires run.organization_id _ _ run.scan_at _)
        (deliver_due-Steps smtp run.organization_id _ run.moments 0 _ _ f))

-- A cycle, whatever the transport answers and however it ends, is made of the service's steps alone,
-- where what others do while a submission is awaited is made of them.
pub run_reminder_cycle-Steps :
    (smtp : Bool) (runs : List OrganizationRun) (result : ReminderRunResult)
    (rows : List ReminderRow)
    → All AreFair runs
    → Steps rows (run_reminder_cycle smtp runs result rows).0
unfolding run_reminder_cycle
run_reminder_cycle-Steps smtp [] result rows f = done
run_reminder_cycle-Steps smtp (o ∷ os) result rows f =
    let ran = run_organization-Steps smtp o result rows f.0 in
    elim (Option-cases (run_organization smtp o result rows).1) [
      | inl e ↦ rw (e, run_reminder_cycle) ran
      | inr (next, e) ↦
          rw (e, run_reminder_cycle) (Steps-trans ran (run_reminder_cycle-Steps smtp os next _ f.1))
    ]
