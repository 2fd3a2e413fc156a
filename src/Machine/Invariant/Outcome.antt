-- ===== src/Machine/Invariant/Outcome.antt =====
-- What a step of thread `i` comes to: a change of the shared structure, what the thread knows and
-- relies on afterwards, what happens to the retired nodes, and the step of the specification.
pub mod Defs
pub mod Enqueue
pub mod Dequeue
pub mod Scan
pub mod Rest
