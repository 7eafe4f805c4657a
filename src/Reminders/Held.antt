-- ===== src/Reminders/Held.antt =====
-- server/db.ts: what a granted claim leaves in the table.
use opencoi.Base.{
  AtMostOne, ℕ, ◌+◌, ◌≡◌, refl, sym, subst, ap, ◌∙◌, Bool, true, false, Option, none, some, List,
  [], ◌∷◌, arith, Text, All, Bool-cases, inl, inr, ◌&&◌, if◌then◌else◌, All-imp, update_where,
  update_where-none,
}
use opencoi.Reminders.{ReminderRow, processing, is_row}
use opencoi.Reminders.Claim.{
  Claim, claim_reminder, claim_of, claimed_row, is_claimable, safe_max_attempts,
}

abbrev pub IsOther : Text → Text → ReminderRow → Type 0
IsOther o id r = is_row o id r ≡ false

-- At most one row has the id, which is the primary key of the table.
abbrev pub IsUnique : Text → Text → List ReminderRow → Type 0
IsUnique o id = AtMostOne (is_row o id)

-- A row of the id is the one that the claim holds.
pub record IsHeld (o id : Text) (c : Claim) (r : ReminderRow) : Type 0 where
  pub status : is_row o id r ≡ true → r.status ≡ processing
  pub since : is_row o id r ≡ true → r.last_attempt_at ≡ some c.claimed_at
  pub attempt : is_row o id r ≡ true → r.attempt_count ≡ c.attempt_number

module _ (o id : Text) where
  IsOther-IsHeld :
      (c : Claim) (rows : List ReminderRow) → All (IsOther o id) rows → All (IsHeld o id c) rows
  IsOther-IsHeld c rows h =
      All-imp (IsOther o id) (IsHeld o id c)
        (λ r k. record {
          status = λ q. cc (q, k);
          since = λ q. cc (q, k);
          attempt = λ q. cc (q, k);
        })
        rows h

  pub claim_others :
      (at : ℕ) (stale : Option ℕ) (max : ℕ) (rows : List ReminderRow)
      → All (IsOther o id) rows
      → claim_reminder o id at stale max rows ≡ (rows, none)
  unfolding claim_reminder
  claim_others at stale max rows h =
      ap (λ x. (x.0, claim_of x.1))
        (update_where-none _ (claimed_row at) rows
          (All-imp (IsOther o id) _ (λ r k. ground arith) rows h))

  pub claim_here :
      (at : ℕ) (stale : Option ℕ) (max : ℕ) (r : ReminderRow) (rs : List ReminderRow)
      → is_row o id r ≡ true
      → All (IsOther o id) rs
      → claim_reminder o id at stale max (r ∷ rs) ≡ (
          if is_claimable at (safe_max_attempts max) stale r
          then (
            claimed_row at r ∷ rs,
            some (record { claimed_at = at; attempt_number = r.attempt_count + 1 }),
          )
          else (r ∷ rs, none))
  unfolding claim_reminder update_where claimed_row
  claim_here at stale max r rs h k =
      rw
        (
          h,
          update_where-none
              (λ (r : ReminderRow).
                is_row o id r && is_claimable at (safe_max_attempts max) stale r)
              (claimed_row at) rs (All-imp (IsOther o id) _ (λ r k. ground arith) rs k),
        )
        (ground arith)

  pub claim_there :
      (at : ℕ) (stale : Option ℕ) (max : ℕ) (r : ReminderRow) (rs : List ReminderRow)
      → is_row o id r ≡ false
      → claim_reminder o id at stale max (r ∷ rs)
        ≡ (r ∷ (claim_reminder o id at stale max rs).0, (claim_reminder o id at stale max rs).1)
  unfolding claim_reminder update_where
  claim_there at stale max r rs h = rw h

  pub claimed_here :
      (at : ℕ) (stale : Option ℕ) (max : ℕ) (r : ReminderRow) (rs : List ReminderRow) (c : Claim)
      → is_row o id r ≡ true
      → All (IsOther o id) rs
      → (claim_reminder o id at stale max (r ∷ rs)).1 ≡ some c
      → ((claim_reminder o id at stale max (r ∷ rs)).0 ≡ claimed_row at r ∷ rs)
        × (c.claimed_at ≡ at)
        × (c.attempt_number ≡ r.attempt_count + 1)
  claimed_here at stale max r rs c h k e = ground (arith, claim_here at stale max r rs h k)

  either_row :
      (at : ℕ) (r : ReminderRow) (rs : List ReminderRow) (b : Bool) (c : Claim)
      → IsUnique o id (r ∷ rs)
      → IsUnique o id
          (if◌then◌else◌ {A = List ReminderRow × Option Claim} b
            (claimed_row at r ∷ rs, some c)
            (r ∷ rs, none)).0
  unfolding claimed_row
  either_row at r rs true c u = u
  either_row at r rs false c u = u

  pub claim-IsUnique :
      (at : ℕ) (stale : Option ℕ) (max : ℕ) (rows : List ReminderRow)
      → IsUnique o id rows
      → IsUnique o id (claim_reminder o id at stale max rows).0
  claim-IsUnique at stale max [] u = unfold claim_reminder update_where in tt
  claim-IsUnique at stale max (r ∷ rs) u = elim (Bool-cases (is_row o id r)) [
    | inl e ↦
        subst (λ x. IsUnique o id x.0) (sym (claim_here at stale max r rs e (u.0 e)))
          (either_row at r rs _ _ u)
    | inr e ↦
        subst (λ x. IsUnique o id x.0) (sym (claim_there at stale max r rs e))
          ((λ q. cc (q, e)), claim-IsUnique at stale max rs u.1)
  ]

  IsHeld-here :
      (at : ℕ) (r : ReminderRow) (c : Claim)
      → c.claimed_at ≡ at
      → c.attempt_number ≡ r.attempt_count + 1
      → IsHeld o id c (claimed_row at r)
  unfolding claimed_row
  IsHeld-here at r c t n = record {
    status = λ q. refl;
    since = λ q. ground arith;
    attempt = λ q. sym n;
  }

  -- A claim that is granted leaves the reminder held by it, from its time on.
  pub claim-IsHeld :
      (at : ℕ) (stale : Option ℕ) (max : ℕ) (rows : List ReminderRow) (c : Claim)
      → IsUnique o id rows
      → (claim_reminder o id at stale max rows).1 ≡ some c
      → All (IsHeld o id c) (claim_reminder o id at stale max rows).0 × (c.claimed_at ≡ at)
  claim-IsHeld at stale max [] c u e = unfold claim_reminder update_where in (ground arith)
  claim-IsHeld at stale max (r ∷ rs) c u e = elim (Bool-cases (is_row o id r)) [
    | inl h ↦
        let (q, t, n) = claimed_here at stale max r rs c h (u.0 h) e in
        (
          subst (All (IsHeld o id c)) (sym q) (IsHeld-here at r c t n, IsOther-IsHeld c rs (u.0 h)),
          t,
        )
    | inr h ↦
        let p = claim_there at stale max r rs h in
        let (rest, t) = claim-IsHeld at stale max rs c u.1 (ap (λ x. x.1) (sym p) ∙ e) in
        (
          subst (All (IsHeld o id c)) (ap (λ x. x.0) (sym p))
              ((IsOther-IsHeld c (r ∷ []) (h, tt)).0, rest),
          t,
        )
  ]

  -- The attempt of a claim is one more than that of the claim which it takes over.
  pub next_attempt :
      (at : ℕ) (stale : Option ℕ) (max : ℕ) (rows : List ReminderRow) (old c : Claim)
      → IsUnique o id rows
      → All (IsHeld o id old) rows
      → (claim_reminder o id at stale max rows).1 ≡ some c
      → c.attempt_number ≡ old.attempt_number + 1
  next_attempt at stale max [] old c u k e = unfold claim_reminder update_where in (ground arith)
  next_attempt at stale max (r ∷ rs) old c u k e = elim (Bool-cases (is_row o id r)) [
    | inl h ↦
        let (q, t, n) = claimed_here at stale max r rs c h (u.0 h) e in
        n ∙ ap (λ x. x + 1) (k.0.attempt h)
    | inr h ↦
        next_attempt at stale max rs old c u.1 k.1
          (ap (λ x. x.1) (sym (claim_there at stale max r rs h)) ∙ e)
  ]
