-- ===== src/Connection.antt =====
-- The parts of a connection of src/quic/connection/ that keep state of their own.
pub mod State
pub mod AntiAmplification
pub mod KeyUpdate
pub mod Scheduler
