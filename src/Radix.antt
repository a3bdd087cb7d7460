-- ===== src/Radix.antt =====
-- Radix sorting by bytes: histograms (include/forest_sorting/detail/radix_counts.hpp) and the
-- partition from the most significant byte (detail/radix.hpp).
pub mod Counts
pub mod Partition
pub mod Tests
