-- ===== src/Simulator.antt =====
-- Package internal/simulator: sensors that make up telemetry, and the sender of their messages.
pub mod Random
pub mod Sensors
pub mod Generators
pub mod Moving
pub mod Generated
pub mod Running
pub mod Rounds
pub mod Building
pub mod Messages
pub mod Launching
pub mod Flags
pub mod Sender
pub mod Command
pub mod Delivery
pub mod Datagrams
mod Tests
