-- ===== src/Mutex.antt =====
-- mutex_queue (include/lfq/mutex_queue.hpp): std::queue under a std::mutex, the control group of
-- the lock-free queue, and it meets the same specification.
pub mod Queue
pub mod Exclusion
pub mod Linear
mod Schedule
