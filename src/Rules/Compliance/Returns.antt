-- ===== src/Rules/Compliance/Returns.antt =====
-- shared/rules.ts: when `evaluateCompliance` returns.
use opencoi.Base.{◌≡◌, ◌<◌, ◌↔◌, some, List, Text, >>=-eq-some, All-imp, All}
use opencoi.Dates.{IsoDate, iso_date}
use opencoi.Domain.{CoiDocumentFacts, ComplianceException, DocumentComplianceEvaluation}
use opencoi.Rules.Requirement.{RulesetV1, Collation}
use opencoi.Rules.Schema.{RulesetV1Input, parse_ruleset}
use opencoi.Rules.Schema.Valid.{IsRuleset, IsProfile, IsCoverage, parse_ruleset-IsRuleset}
use opencoi.Rules.Total.{HasBoundedDays, evaluate_ruleset_returns}
use opencoi.Rules.Compliance.{evaluate_compliance}

bounded_days : (r : RulesetV1) → IsRuleset r → All HasBoundedDays r.vendor_types
bounded_days r h =
    All-imp IsProfile HasBoundedDays
      (λ p k. All-imp IsCoverage _ (λ c q. q.days) p.requirements k.requirements) r.vendor_types
      h.profiles

-- For an evaluation date of the calendar before year 9900, `evaluateCompliance` returns an
-- evaluation exactly when its ruleset parses, whatever the document, the vendor type and the
-- exceptions are.
pub evaluate_compliance-returns_iff :
    (c : Collation) (x : RulesetV1Input) (document : CoiDocumentFacts) (v d : Text)
    (xs : List ComplianceException) (day : IsoDate)
    → iso_date d ≡ some day
    → day.year < 9900
    → ((e : DocumentComplianceEvaluation) × (evaluate_compliance c x document v d xs ≡ some e))
      ↔ ((r : RulesetV1) × (parse_ruleset x ≡ some r))
unfolding evaluate_compliance
evaluate_compliance-returns_iff c x document v d xs day de early = (
  (λ (e, p). let (r, q, _) = >>=-eq-some (parse_ruleset x) _ p in (r, q)),
  (λ (r, q).
      let (e, p) =
        evaluate_ruleset_returns c r document v d xs day de early
          (bounded_days r (parse_ruleset-IsRuleset x r q)) in
      (e, rw q p)),
)
