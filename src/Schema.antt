-- ===== src/Schema.antt =====
-- internal/schema: the canonical records, their validation and the budget of series.
pub mod Types
pub mod Validation
pub mod Cardinality
mod Tests
