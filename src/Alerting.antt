-- ===== src/Alerting.antt =====
-- internal/alerting: alerts, hysteresis, silences, fingerprints, the manager and the deadman.
pub mod Alert
pub mod Hysteresis
pub mod Deadman
pub mod Silence
pub mod Fingerprint
pub mod Manager
mod Tests
