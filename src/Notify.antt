-- ===== src/Notify.antt =====
-- internal/notify: notifications on their way to the receivers.
pub mod Router
pub mod Dispatching
mod Tests
