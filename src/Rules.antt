-- ===== src/Rules.antt =====
-- shared/rules.ts: the rules engine, one module for each kind of check.
pub mod Requirement
pub mod Schema
pub mod Finding
pub mod Period
pub mod Limit
pub mod Endorsement
pub mod Policy
pub mod Candidate
pub mod Evaluate
pub mod Compliance
pub mod EveryFinding
pub mod Met
pub mod Origin
pub mod Compliant
pub mod Chosen
pub mod Total
mod Examples
pub mod HumanAuthority
