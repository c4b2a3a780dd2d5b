-- ===== src/Extraction.antt =====
-- internal/extraction: rules that make events out of log lines.
pub mod Rule
pub mod Engine
pub mod Emitted
mod Tests
