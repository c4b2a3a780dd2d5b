-- ===== src/Collector.antt =====
-- internal/collector: what runs, and how often.
pub mod Runtime
pub mod Registry
mod Tests
