-- ===== src/Processor.antt =====
-- Package internal/processor: the worker pool and its queue.
pub mod Worker
pub mod Outcomes
pub mod Handling
pub mod Pool
pub mod System
pub mod Effects
pub mod States
pub mod Invariant
pub mod Lifecycle
pub mod Stats
pub mod Texts
mod Tests
