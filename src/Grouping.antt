-- ===== src/Grouping.antt =====
-- Stable grouping of a permutation by depth (include/forest_sorting/detail/adaptive_sort.hpp).
pub mod Dense
pub mod Msd
