-- ===== src/Judge.antt =====
-- src/draftbench/judge: blinded pairwise panels, their run and the tallies of it.
pub mod Error
pub mod Judges
pub mod Panel
pub mod Orders
pub mod Blinding
pub mod Run
pub mod Dispatch
pub mod Once
pub mod Growth
pub mod Progress
pub mod Games
pub mod Tally
pub mod Totals
pub mod Played
pub mod Agreeing
pub mod Agreement
pub mod Samples
