-- ===== src/Ledger.antt =====
-- src/draftbench/ledger.py: the attempt ledger.
pub mod Types
pub mod Ident
pub mod Tables
pub mod Schema
pub mod Session
pub mod Transaction
pub mod Policy
pub mod Plan
pub mod Operations
pub mod History
pub mod Invariant
pub mod Preservation
pub mod Calls
pub mod Exact
pub mod Recovery
pub mod Guarantees
pub mod Samples
