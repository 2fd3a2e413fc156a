-- ===== src/Model.antt =====
-- The protocol that model/hp_model.hpp gives to the model checker, with stores that are delayed.
pub mod Protocol
pub mod Invariant
pub mod Preserve
pub mod Fences
pub mod Driver
mod Schedule
