-- ===== src/Metrics.antt =====
-- Package internal/metrics: latency samples and their percentiles.
pub mod Rounding
pub mod Sort
pub mod Latency
pub mod Ring
pub mod History
pub mod Percentiles
mod Tests
