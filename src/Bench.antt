-- ===== src/Bench.antt =====
-- The benchmark harness (bench/harness.hpp).
pub mod Numbers
pub mod Threads
pub mod Args
pub mod Suite
pub mod Trials
pub mod Stats
pub mod Barrier
pub mod Release
pub mod Skeleton
mod Samples
mod Races
mod Figures
mod Schedule
