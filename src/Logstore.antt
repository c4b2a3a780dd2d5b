-- ===== src/Logstore.antt =====
-- internal/logstore: the buffers of log lines, the blocks on disk and the index made from them.
pub mod Block
pub mod Store
pub mod Index
pub mod Conservation
pub mod Atomic
pub mod Gathering
pub mod Written
pub mod Delivery
pub mod Failure
pub mod Bounds
pub mod Walking
pub mod Scan
pub mod Reindex
pub mod Tests
