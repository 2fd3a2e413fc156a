-- ===== src/Leaky.antt =====
-- The queue with a reclaimer that frees nothing: ms_queue_m (model/queue_model.hpp), which is
-- ms_queue<T, leaky_reclaimer> (include/lfq/ms_queue.hpp) with a list of the nodes that it retires.
pub mod Queue
pub mod Outcome
pub mod Invariant
pub mod Correct
pub mod Teardown
pub mod Solo
pub mod Clients
mod Schedule
