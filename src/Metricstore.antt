-- ===== src/Metricstore.antt =====
-- internal/metricstore: the samples of a series made coarser.
pub mod Downsample
pub mod Ordering
pub mod Buckets
mod Tests
