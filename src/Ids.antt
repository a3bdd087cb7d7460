-- ===== src/Ids.antt =====
-- Identifiers by their bytes: chunks, comparisons and the cached form.
pub mod Chunks
pub mod Compare
pub mod Comparator
pub mod SmallSort
pub mod MsdChunks
