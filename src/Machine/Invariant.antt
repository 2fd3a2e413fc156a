-- ===== src/Machine/Invariant.antt =====
-- The invariant of the machine, and what a step does to each part of it.
pub mod Defs
pub mod Lag
pub mod Change
pub mod Outcome
pub mod Others
pub mod Snapshot
pub mod Preserve
pub mod Reachable
