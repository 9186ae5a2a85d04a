-- ===== src/Scoring/Checks.antt =====
-- src/draftbench/scoring/deterministic.py.
pub mod Verdicts
pub mod Deterministic
pub mod Substrings
pub mod Holds
pub mod Facts
pub mod Passing
pub mod Applied
pub mod Owed
pub mod Outcomes
pub mod Samples
