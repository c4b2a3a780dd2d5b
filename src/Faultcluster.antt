-- ===== src/Faultcluster.antt =====
-- internal/faultcluster: segmentation faults that gather on one physical core.
pub mod Topology
pub mod Tracker
pub mod Once
mod Tests
