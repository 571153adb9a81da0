-- ===== src/Recovery.antt =====
-- Loss recovery and congestion control: round-trip times, the pacer and the Reno controller.
pub mod Rtt
pub mod Pacer
pub mod Reno
pub mod Unacked
pub mod SendControl
