-- ===== src/Scoring.antt =====
-- src/draftbench/scoring.
pub mod Case
pub mod Decisions
pub mod Support
pub mod Scope
pub mod Rate
pub mod Valid
pub mod Validity
pub mod Cohort
pub mod Balance
pub mod Checks
pub mod Match
pub mod Samples
