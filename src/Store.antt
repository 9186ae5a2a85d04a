-- ===== src/Store.antt =====
-- src/draftbench/store.py: artifacts that are named after their digests.
pub mod Objects
pub mod Publish
pub mod Kept
pub mod Trips
pub mod Retry
pub mod Samples
