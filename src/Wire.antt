-- ===== src/Wire.antt =====
-- proto/ingest.proto's messages, and the conversions at both ends: internal/agentbuffer/transportsender.go
-- on the agent and internal/ingestreceiver on the hub.
pub mod Messages
pub mod Sender
pub mod Convert
pub mod Receiver
pub mod RoundTrip
pub mod Packing
pub mod Delivery
mod Tests
