-- ===== src/Projections/Agree.antt =====
-- server/services/projections.ts: whether the list says of a vendor what its own summary says.
use opencoi.Base.{
  ℕ, ◌≡◌, ◌≢◌, ◌⊎◌, refl, ap, true, false, ◌&&◌, Option, none, some, List, [], ◌∷◌, arith, ◌==◌,
  if◌then◌else◌, Text, filter, length, inl, inr, Option-cases, any,
}
use opencoi.Projections.{
  CertificateRow, PolicyRow, FindingRow, RequirementRow, VendorRow, Tables, latest_certificate,
  latest_confirmed_certificate, day_of, policies_of, is_shortfall, of_certificate,
}
use opencoi.Projections.Reference.{
  first_date, or_date, is_later, days_of, max_of, requirements_of, expiration_warning_days_for,
  lifecycle_for, lifecycle_at, check_for, vendor_summary_view, expiration_of_latest,
  policies_of_latest, open_finding_count, unexcepted_failure_count,
}
use opencoi.Projections.Listed.{
  aggregate_row, aggregate_check_status, aggregate_lifecycle, summary_of_row, sql_max_days,
  coalesce, joined_date, lifecycle_of_dates, sql_min,
}
use opencoi.Projections.Aggregates.{
  sql_min-first_date, sql_max_days-max_of, sum_case-filter, sum_case-unexcepted,
}

-- The vendor type has no active requirement, or a required one.
abbrev pub HasRequired : Text → Tables → Type 0
HasRequired vendor_type_id db =
    (requirements_of vendor_type_id db.requirements ≡ [])
    ⊎ (any (λ (r : RequirementRow). r.required) (requirements_of vendor_type_id db.requirements)
        ≡ true)

-- The certificate alone, without a date of its policies, does not start after today.
pub record StartsByPolicies (v : VendorRow) (now : ℕ) (db : Tables) : Type 0 where
  pub starts :
      (c : CertificateRow)
      → latest_certificate v.id db.certificates ≡ some c
      → first_date (λ (p : PolicyRow). p.effective_date) (policies_of c.id db.policies) ≡ none
      → is_later c.earliest_effective_date (day_of now) ≡ false

required_days :
    (rs : List RequirementRow)
    → any (λ (r : RequirementRow). r.required) rs ≡ true
    → (length (days_of rs) == 0) ≡ false
unfolding any filter
required_days [] h = ground arith
required_days (r ∷ rs) h = ground (arith, required_days rs)

same_days :
    (vendor_type_id : Text) (db : Tables)
    → HasRequired vendor_type_id db
    → coalesce (sql_max_days (requirements_of vendor_type_id db.requirements)) 30
      ≡ expiration_warning_days_for vendor_type_id db.requirements
unfolding expiration_warning_days_for
same_days t db h = by_requirements (requirements_of t db.requirements) h
  where
    by_requirements :
        (rs : List RequirementRow)
        → (rs ≡ []) ⊎ (any (λ (r : RequirementRow). r.required) rs ≡ true)
        → coalesce (sql_max_days rs) 30
          ≡ (if length (days_of rs) == 0 then 30 else max_of (days_of rs))
    by_requirements [] k = unfold filter in refl
    by_requirements (r ∷ rs) (inl k) = ground arith
    by_requirements (r ∷ rs) (inr k) = rw (sql_max_days-max_of r rs, required_days (r ∷ rs) k) refl

same_expiration :
    (c : Option CertificateRow) (db : Tables)
    → joined_date
        (λ (p : PolicyRow). p.expiration_date)
        (λ (c : CertificateRow). c.earliest_expiration_date)
        c
        db.policies
      ≡ expiration_of_latest c db
same_expiration none db = refl
same_expiration (some c) db =
    ap (λ d. or_date d c.earliest_expiration_date)
      (sql_min-first_date (λ (p : PolicyRow). p.expiration_date) (policies_of c.id db.policies))

same_check :
    (v : VendorRow) (now : ℕ) (db : Tables)
    → aggregate_check_status (aggregate_row now db v)
      ≡ check_for (latest_certificate v.id db.certificates) now db
unfolding aggregate_check_status aggregate_row check_for unexcepted_failure_count
same_check v now db = elim (Option-cases (latest_certificate v.id db.certificates)) [
  | inl e ↦ rw e refl
  | inr (c, e) ↦ rw e (ground (arith, sum_case-unexcepted c.id now db db.findings))
]

same_findings :
    (v : VendorRow) (now : ℕ) (db : Tables)
    → (aggregate_row now db v).open_findings
      ≡ open_finding_count (latest_certificate v.id db.certificates) db
unfolding aggregate_row
same_findings v now db = elim (Option-cases (latest_certificate v.id db.certificates)) [
  | inl e ↦ rw e refl
  | inr (c, e) ↦ rw e (
      sum_case-filter (λ (f : FindingRow). f.is_open && is_shortfall f.evaluation_status)
        (filter (of_certificate c.id) db.findings))
]

-- Whether the first date is after today, from both dates of the list or those of the policies alone.
same_start :
    (c : CertificateRow) (today : ℕ) (ps : List PolicyRow)
    → (first_date (λ (p : PolicyRow). p.effective_date) ps ≡ none
        → is_later c.earliest_effective_date today ≡ false)
    → is_later
        (or_date (sql_min (λ (p : PolicyRow). p.effective_date) ps) c.earliest_effective_date)
        today
      ≡ is_later (first_date (λ (p : PolicyRow). p.effective_date) ps) today
same_start c today ps h =
    rw (sql_min-first_date (λ (p : PolicyRow). p.effective_date) ps)
      (by_date (first_date (λ (p : PolicyRow). p.effective_date) ps) h)
  where
    by_date :
        (x : Option ℕ)
        → (x ≡ none → is_later c.earliest_effective_date today ≡ false)
        → is_later (or_date x c.earliest_effective_date) today ≡ is_later x today
    by_date none k = k refl
    by_date (some d) k = refl

-- The lifecycle of a row is that of its dates.
dates_lifecycle :
    (effective own expiration : Option ℕ) (today warning_days : ℕ)
    → is_later own today ≡ is_later effective today
    → lifecycle_of_dates own expiration warning_days today
      ≡ lifecycle_at effective expiration today warning_days
dates_lifecycle effective own none today warning_days h = refl
dates_lifecycle effective own (some d) today warning_days h = rw h refl

same_lifecycle :
    (v : VendorRow) (now : ℕ) (db : Tables)
    → HasRequired v.vendor_type_id db
    → StartsByPolicies v now db
    → aggregate_lifecycle (aggregate_row now db v) (day_of now)
      ≡ lifecycle_for
          (latest_certificate v.id db.certificates)
          (policies_of_latest (latest_certificate v.id db.certificates) db)
          (day_of now)
          (expiration_warning_days_for v.vendor_type_id db.requirements)
unfolding aggregate_lifecycle aggregate_row lifecycle_for
same_lifecycle v now db r s = elim (Option-cases (latest_certificate v.id db.certificates)) [
  | inl e ↦ rw e refl
  | inr (c, e) ↦
      rw
        (
          e,
          same_days v.vendor_type_id db r,
          sql_min-first_date (λ (p : PolicyRow). p.expiration_date) (policies_of c.id db.policies),
        )
        (dates_lifecycle _ _ _ (day_of now) _
          (same_start c (day_of now) (policies_of c.id db.policies) (s.starts c e)))
]

-- The list of vendors says of each what its own summary says, in every field that is computed, where the
-- vendor's type has a required requirement or none at all, and the certificate itself does not start after
-- today where its policies have no effective date: the aggregates over all vendors are those of the one.
pub summary_of_row-vendor_summary_view :
    (v : VendorRow) (now : ℕ) (db : Tables)
    → HasRequired v.vendor_type_id db
    → StartsByPolicies v now db
    → summary_of_row (day_of now) (aggregate_row now db v) ≡ vendor_summary_view v now db
unfolding summary_of_row vendor_summary_view
summary_of_row-vendor_summary_view v now db r s =
    rw (same_lifecycle v now db r s, same_check v now db, same_findings v now db)
      (unfold aggregate_row in
        (rw
          (
            same_days v.vendor_type_id db r,
            same_expiration (latest_certificate v.id db.certificates) db,
            same_expiration (latest_confirmed_certificate v.id db.certificates) db,
          )
          refl))

no_required_days :
    (rs : List RequirementRow)
    → any (λ (r : RequirementRow). r.required) rs ≡ false
    → days_of rs ≡ []
unfolding any filter
no_required_days [] h = refl
no_required_days (r ∷ rs) h = ground (arith, no_required_days rs)

optional_days :
    (rs : List RequirementRow)
    → rs ≢ []
    → any (λ (r : RequirementRow). r.required) rs ≡ false
    → (coalesce (sql_max_days rs) 30 ≡ 0)
      × ((if length (days_of rs) == 0 then 30 else max_of (days_of rs)) ≡ 30)
optional_days [] n h = absurd (n refl)
optional_days (r ∷ rs) n h =
    let none_required = no_required_days (r ∷ rs) h in
    (rw (sql_max_days-max_of r rs, none_required) refl, rw none_required refl)

-- Of a vendor whose type has active requirements, none of them required, the list warns of an expiration
-- no day before it, and its own summary 30 days.
pub optional_requirements-disagree :
    (v : VendorRow) (now : ℕ) (db : Tables)
    → requirements_of v.vendor_type_id db.requirements ≢ []
    → any (λ (r : RequirementRow). r.required) (requirements_of v.vendor_type_id db.requirements)
      ≡ false
    → ((summary_of_row (day_of now) (aggregate_row now db v)).expiration_warning_days ≡ 0)
      × ((vendor_summary_view v now db).expiration_warning_days ≡ 30)
unfolding summary_of_row aggregate_row vendor_summary_view expiration_warning_days_for
optional_requirements-disagree v now db n h =
    optional_days (requirements_of v.vendor_type_id db.requirements) n h
