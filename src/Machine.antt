-- ===== src/Machine.antt =====
-- Threads that run ms_queue<T, hp_reclaimer> over one shared memory, an access at a time, in any
-- order (include/lfq/ms_queue.hpp, include/lfq/hazard_pointer.hpp).
pub mod State
pub mod Step
pub mod Spec
pub mod System
pub mod Invariant
pub mod Refine
pub mod Safety
pub mod Conserve
pub mod Books
pub mod Entries
pub mod Destroy
pub mod Empty
pub mod Garbage
pub mod Hands
pub mod Bound
pub mod Solo
mod Schedule
