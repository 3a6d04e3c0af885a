-- ===== src/Replay.antt =====
-- Package internal/replay: recording messages to a file of lines, and replaying them.
pub mod Scanner
pub mod Files
pub mod Roundtrip
pub mod Command
mod Tests
