-- ===== src/Projections/Examples.antt =====
-- A vendor whose certificate is current, and one whose type has optional requirements only.
use native.Mathlib.Omega.{arith}
use opencoi.Base.{
  ℕ, ◌+◌, ◌*◌, ◌≡◌, refl, true, false, none, some, [], ◌∷◌, codes, text_eq, any, filter, inr,
}
use opencoi.Base.Sort.{sort, insert_sorted}
use opencoi.Projections.{
  CertificateRow, PolicyRow, RequirementRow, VendorRow, Tables, confirmed, compliant,
  latest_certificate, day_of, meets, current, awaits_review,
}
use opencoi.Projections.Reference.{
  vendor_summary_view, check_for, lifecycle_for, expiration_warning_days_for,
}
use opencoi.Projections.Listed.{aggregate_row, summary_of_row, aggregate_lifecycle}
use opencoi.Projections.Agree.{
  HasRequired, StartsByPolicies, summary_of_row-vendor_summary_view, optional_requirements-disagree,
}

abbrev vendor : VendorRow
vendor = record {
  id = codes "v1";
  legal_name = codes "Acme";
  vendor_type_id = codes "t1";
  is_active = true;
  updated_at = 1;
}

abbrev certificate : CertificateRow
certificate = record {
  id = codes "c1";
  vendor_id = codes "v1";
  confirmation_status = confirmed;
  compliance_status = compliant;
  earliest_effective_date = none;
  earliest_expiration_date = some 200;
  updated_at = 5;
  uploaded_at = 4;
}

abbrev policy : PolicyRow
policy = record {
  certificate_id = codes "c1";
  effective_date = some 90;
  expiration_date = some 200;
}

abbrev requirement : RequirementRow
requirement = record { vendor_type_id = codes "t1"; required = true; expiration_warning_days = 45 }

abbrev tables : RequirementRow → Tables
tables r = record {
  vendors = vendor ∷ [];
  certificates = certificate ∷ [];
  policies = policy ∷ [];
  findings = [];
  exceptions = [];
  requirements = r ∷ [];
}

-- The hundredth day.
abbrev now : ℕ
now = 100 * 86400000 + 5

has_required : HasRequired (codes "t1") (tables requirement)
unfolding filter text_eq any
has_required = inr refl

starts : StartsByPolicies vendor now (tables requirement)
unfolding latest_certificate sort insert_sorted filter text_eq
starts = record { starts = λ c e k. ground arith }

summary_of_row-vendor_summary_view_example :
    summary_of_row (day_of now) (aggregate_row now (tables requirement) vendor)
    ≡ vendor_summary_view vendor now (tables requirement)
summary_of_row-vendor_summary_view_example =
    summary_of_row-vendor_summary_view vendor now (tables requirement) has_required starts

-- The two computed, the day being before the 45 of the warning.
summary_test :
    ((vendor_summary_view vendor now (tables requirement)).status ≡ meets)
    × ((summary_of_row
          (day_of now)
          (aggregate_row now (tables requirement) vendor)).lifecycle_status
        ≡ current)
unfolding vendor_summary_view check_for lifecycle_for expiration_warning_days_for latest_certificate
    summary_of_row aggregate_row aggregate_lifecycle sort insert_sorted filter text_eq awaits_review
summary_test = (refl, refl)

abbrev optional : RequirementRow
optional = record requirement { required = false }

optional_requirements-disagree_example :
    ((summary_of_row
        (day_of now)
        (aggregate_row now (tables optional) vendor)).expiration_warning_days
      ≡ 0)
    × ((vendor_summary_view vendor now (tables optional)).expiration_warning_days ≡ 30)
optional_requirements-disagree_example =
    optional_requirements-disagree vendor now (tables optional)
      (λ q. unfold filter text_eq in (ground arith)) (unfold filter text_eq any in refl)
