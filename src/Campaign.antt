-- ===== src/Campaign.antt =====
-- src/draftbench/campaign.py: the budget that all runs of a campaign share.
pub mod Amount
pub mod Rounding
pub mod Budget
pub mod Grown
pub mod Outcomes
pub mod Exact
pub mod Guarantees
pub mod Samples
