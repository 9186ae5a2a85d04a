-- ===== src/Scoring/Match.antt =====
-- src/draftbench/scoring/findings.py.
pub mod Alignments
pub mod Findings
pub mod Matching
pub mod OneToOne
pub mod LeftOut
pub mod Tallies
pub mod Samples
