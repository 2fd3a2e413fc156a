-- ===== src/Registry.antt =====
-- How a thread gets its hazard record and gives it back (include/lfq/hazard_pointer.hpp).
pub mod Acquire
pub mod Chain
pub mod Listed
pub mod News
pub mod Growth
pub mod Snapshot
pub mod Complete
pub mod Ownership
mod Schedule
