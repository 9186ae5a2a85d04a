-- ===== src/Tariff.antt =====
-- src/draftbench/adapters/: what a text provider's policy admits and what its answers may cost.
pub mod Policy
pub mod Usage
pub mod Typed
pub mod Covered
pub mod Precision
pub mod Samples
