-- ===== src/Reminders/Fencing.antt =====
-- server/db.ts: a claim excludes others until its lease ends, and a claim that was taken over completes
-- nothing.
use opencoi.Base.{
  ℕ, ◌+◌, ◌<◌, ◌≡◌, ap, false, Option, none, some, List, arith, Text, ◌&&◌, ◌==◌, All-imp,
  update_where-none,
}
use opencoi.Reminders.{ReminderRow, is_row, count}
use opencoi.Reminders.Claim.{
  Claim, claim_reminder, claim_of, claimed_row, is_claimable, safe_max_attempts,
}
use opencoi.Reminders.Mark.{Mark, complete, is_completed}
use opencoi.Reminders.Held.{IsUnique, IsHeld, claim-IsUnique, claim-IsHeld, next_attempt}

held_refuses :
    (o id : Text) (c : Claim) (at at' stale' max' : ℕ) (r : ReminderRow)
    → IsHeld o id c r
    → c.claimed_at ≡ at
    → stale' < at
    → (is_row o id r && is_claimable at' (safe_max_attempts max') (some stale') r) ≡ false
unfolding is_claimable
held_refuses o id c at at' stale' max' r k t lt = ground arith

held_fenced :
    (o id : Text) (c' c : Claim) (m : Mark) (r : ReminderRow)
    → IsHeld o id c' r
    → m.id ≡ id
    → m.attempt_number ≡ some c.attempt_number
    → c'.attempt_number ≡ c.attempt_number + 1
    → (is_row o m.id r && is_completed m r) ≡ false
held_fenced o id c' c m r k i n next = ground arith

-- A claim that is granted excludes every other: until its lease ends, that is for any bound of
-- staleness before its time, a further claim of the reminder is refused and changes nothing.
pub claim_reminder-excludes :
    (o id : Text) (at at' stale' max max' : ℕ) (stale : Option ℕ) (rows : List ReminderRow)
    (c : Claim)
    → IsUnique o id rows
    → (claim_reminder o id at stale max rows).1 ≡ some c
    → stale' < at
    → claim_reminder o id at' (some stale') max' (claim_reminder o id at stale max rows).0
      ≡ ((claim_reminder o id at stale max rows).0, none)
claim_reminder-excludes o id at at' stale' max max' stale rows c u e lt =
    let (held, t) = claim-IsHeld o id at stale max rows c u e in
    unfold claim_reminder in
    (ap (λ x. (x.0, claim_of x.1))
      (update_where-none _ (claimed_row at') _ (
        All-imp (IsHeld o id c) _ (λ r k. held_refuses o id c at at' stale' max' r k t lt) _ held)))

-- A worker whose claim was taken over by a later one completes nothing: its mark changes no row and
-- returns false.
pub complete-fenced :
    (o id : Text) (at at' max max' : ℕ) (stale stale' : Option ℕ) (rows : List ReminderRow)
    (c c' : Claim) (m : Mark) (change : ReminderRow → ReminderRow)
    → IsUnique o id rows
    → (claim_reminder o id at stale max rows).1 ≡ some c
    → (claim_reminder o id at' stale' max' (claim_reminder o id at stale max rows).0).1 ≡ some c'
    → m.id ≡ id
    → m.attempt_number ≡ some c.attempt_number
    → complete o m
        (is_completed m)
        change
        (claim_reminder o id at' stale' max' (claim_reminder o id at stale max rows).0).0
      ≡ ((claim_reminder o id at' stale' max' (claim_reminder o id at stale max rows).0).0, false)
unfolding complete
complete-fenced o id at at' max max' stale stale' rows c c' m change u e e' i n =
    let u' = claim-IsUnique o id at stale max rows u in
    let held = (claim-IsHeld o id at stale max rows c u e).0 in
    let held' = (claim-IsHeld o id at' stale' max' _ c' u' e').0 in
    let next = next_attempt o id at' stale' max' _ c c' u' held e' in
    ap (λ x. (x.0, count x.1 == 1))
      (update_where-none _ change _
        (All-imp (IsHeld o id c') _ (λ r k. held_fenced o id c' c m r k i n next) _ held'))
