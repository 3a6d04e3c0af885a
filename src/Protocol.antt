-- ===== src/Protocol.antt =====
-- Package internal/protocol: the telemetry messages, their validation and their parsing.
pub mod Types
pub mod Validation
pub mod Parser
pub mod Parsing
mod Tests
