-- ===== src/Blackbox.antt =====
-- internal/blackbox: the ring of samples in a file that survives a crash, and its reader.
pub mod Codec
pub mod Header
pub mod Sample
pub mod Recorder
pub mod Reader
pub mod Region
pub mod Ring
mod Tests
