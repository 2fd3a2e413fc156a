-- ===== src/Orphans.antt =====
-- The stack of orphans: push_orphan and adopt_orphans of hp_domain
-- (include/lfq/hazard_pointer.hpp), an access at a time by threads in any order.
pub mod Stack
pub mod Tracked
pub mod Items
pub mod Conserve
mod Schedule
