-- ===== src/Reminders/Claimed.antt =====
-- server/db.ts: the one row that a granted claim leaves claimed, and a claim that is refused.
use opencoi.Base.{
  ℕ, ◌+◌, ◌≤◌, ◌≡◌, refl, sym, subst, ap, ◌∙◌, Bool, true, false, Option, none, some, List, [], ◌∷◌,
  arith, Text, Bool-cases, inl, inr, if◌then◌else◌, filter, filter-none, update_where,
}
use opencoi.Reminders.{ReminderRow, processing, is_row}
use opencoi.Reminders.Claim.{Claim, claim_reminder, claimed_row, is_claimable, safe_max_attempts}
use opencoi.Reminders.Held.{IsUnique, claim_here, claim_there, claimed_here}

-- The rows of an id: one at most, where it stands once.
abbrev pub rows_of : Text → Text → List ReminderRow → List ReminderRow
rows_of o id rows = filter (is_row o id) rows

-- The row of a claim that is held.
pub record IsClaimed (o id : Text) (c : Claim) (d : ReminderRow) : Type 0 where
  pub is_it : is_row o id d ≡ true
  pub status : d.status ≡ processing
  pub since : d.last_attempt_at ≡ some c.claimed_at
  pub attempt : d.attempt_count ≡ c.attempt_number
  pub from_one : 1 ≤ c.attempt_number

-- One row of the id is left, as `P` says.
abbrev pub Leaves : Text → Text → List ReminderRow → (ReminderRow → Type 0) → Type 0
Leaves o id rows P = (d : ReminderRow) × (rows_of o id rows ≡ d ∷ []) × P d

module _ (o id : Text) (at : ℕ) (stale : Option ℕ) (max : ℕ) where
  here-IsClaimed :
      (r : ReminderRow) (rs : List ReminderRow) (c : Claim)
      → is_row o id r ≡ true
      → rows_of o id rs ≡ []
      → c.claimed_at ≡ at
      → c.attempt_number ≡ r.attempt_count + 1
      → Leaves o id (claimed_row at r ∷ rs) (IsClaimed o id c)
  unfolding filter claimed_row
  here-IsClaimed r rs c h others t n = (
    claimed_row at r,
    rw (h, others) refl,
    record {
      is_it = h;
      status = refl;
      since = ap some (sym t);
      attempt = sym n;
      from_one = omega (arith, n);
    },
  )

  there-Leaves :
      (r : ReminderRow) (rs : List ReminderRow) (P : ReminderRow → Type 0)
      → is_row o id r ≡ false
      → Leaves o id rs P
      → Leaves o id (r ∷ rs) P
  unfolding filter
  there-Leaves r rs P h (d, e, k) = (d, rw h e, k)

  -- A claim that is granted leaves the row of the id claimed.
  pub claim-IsClaimed :
      (rows : List ReminderRow) (c : Claim)
      → IsUnique o id rows
      → (claim_reminder o id at stale max rows).1 ≡ some c
      → Leaves o id (claim_reminder o id at stale max rows).0 (IsClaimed o id c)
  claim-IsClaimed [] c u e = unfold claim_reminder update_where in (ground arith)
  claim-IsClaimed (r ∷ rs) c u e = elim (Bool-cases (is_row o id r)) [
    | inl h ↦
        let (q, t, n) = claimed_here o id at stale max r rs c h (u.0 h) e in
        subst (λ x. Leaves o id x (IsClaimed o id c)) (sym q)
          (here-IsClaimed r rs c h (filter-none (is_row o id) rs (u.0 h)) t n)
    | inr h ↦
        let p = claim_there o id at stale max r rs h in
        subst (λ x. Leaves o id x (IsClaimed o id c)) (ap (λ x. x.0) (sym p))
          (there-Leaves r _ (IsClaimed o id c) h
            (claim-IsClaimed rs c u.1 (ap (λ x. x.1) (sym p) ∙ e)))
  ]

  -- A claim that is refused changes nothing.
  pub claim-refused :
      (rows : List ReminderRow)
      → IsUnique o id rows
      → (claim_reminder o id at stale max rows).1 ≡ none
      → (claim_reminder o id at stale max rows).0 ≡ rows
  claim-refused [] u e = unfold claim_reminder update_where in refl
  claim-refused (r ∷ rs) u e = elim (Bool-cases (is_row o id r)) [
    | inl h ↦
        let p = claim_here o id at stale max r rs h (u.0 h) in
        ap (λ x. x.0) p
        ∙ not_granted (is_claimable at (safe_max_attempts max) stale r) _ _ _
            (ap (λ x. x.1) (sym p) ∙ e)
    | inr h ↦
        let p = claim_there o id at stale max r rs h in
        ap (λ x. x.0) p ∙ ap (λ l. r ∷ l) (claim-refused rs u.1 (ap (λ x. x.1) (sym p) ∙ e))
  ]
    where
      not_granted :
          (b : Bool) (x y : List ReminderRow) (c : Claim)
          → (if◌then◌else◌ {A = List ReminderRow × Option Claim} b (x, some c) (y, none)).1 ≡ none
          → (if◌then◌else◌ {A = List ReminderRow × Option Claim} b (x, some c) (y, none)).0 ≡ y
      not_granted true x y c q = ground arith
      not_granted false x y c q = refl
