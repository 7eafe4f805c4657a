-- ===== src/Rules/Compliance.antt =====
-- shared/rules.ts: `evaluateCompliance`.
pub mod Returns
use opencoi.Base.{Option, List, ◌>>=◌, Text}
use opencoi.Domain.{CoiDocumentFacts, ComplianceException, DocumentComplianceEvaluation}
use opencoi.Rules.Requirement.{Collation}
use opencoi.Rules.Schema.{RulesetV1Input, parse_ruleset}
use opencoi.Rules.Evaluate.{evaluate_ruleset}

unfoldable pub evaluate_compliance :
    Collation
    → RulesetV1Input
    → CoiDocumentFacts
    → Text
    → Text
    → List ComplianceException
    → Option DocumentComplianceEvaluation
evaluate_compliance collation ruleset_input document vendor_type_id evaluation_date exceptions = do
  rules ← parse_ruleset ruleset_input
  evaluate_ruleset collation rules document vendor_type_id evaluation_date exceptions
