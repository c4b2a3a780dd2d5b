-- ===== src/AgentBuffer.antt =====
-- internal/agentbuffer: the agent's outbound write-ahead log.
pub mod Segment
pub mod Order
pub mod Buffer
pub mod Backfill
pub mod Capacity
pub mod Sink
mod Tests
