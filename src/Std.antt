-- ===== src/Std.antt =====
-- What the program takes from the C++ standard library: std::sort and std::binary_search on a
-- vector of addresses (include/lfq/hazard_pointer.hpp, `hp_domain::scan`).
pub mod Search
