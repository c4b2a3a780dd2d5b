-- ===== src/Spool.antt =====
-- internal/spool: the directory through which the privileged helpers hand results to the agent.
pub mod Entries
pub mod Visible
mod Tests
