-- ===== src/Processor/Texts.antt =====
-- `ProcessorStats.String` of internal/processor/processor.go: the values that the text shows, in its
-- order. Its words, and how `fmt` writes a number or a duration, are left out.
use sentinelstream.Prelude.{ℕ, ℤ}
use sentinelstream.Clock.{Duration}
use sentinelstream.Processor.Pool.{ProcessorStats}

pub record ProcessorText : Type 0 where
  pub workers : ℤ
  pub queue_depth : ℕ
  pub queue_size : ℤ
  pub enqueued : ℕ
  pub processed : ℕ
  pub errors : ℕ
  pub anomalies : ℕ
  pub dropped : ℕ
  pub duplicates : ℕ
  pub out_of_order : ℕ
  pub sensors : ℕ
  pub queue_full : ℕ
  pub e2e_latency : Duration × Duration × Duration

abbrev pub processor_string : ProcessorStats → ProcessorText
processor_string s = record {
  workers = s.num_workers;
  queue_depth = s.queue_depth;
  queue_size = s.queue_size;
  enqueued = s.total_messages_enqueued;
  processed = s.totals.processed;
  errors = s.totals.errors;
  anomalies = s.totals.anomalies;
  dropped = s.totals.dropped;
  duplicates = s.totals.duplicates;
  out_of_order = s.totals.out_of_order;
  sensors = s.known_sensors;
  queue_full = s.queue_full_events;
  e2e_latency = (s.end_to_end_latency.p50, s.end_to_end_latency.p95, s.end_to_end_latency.p99);
}
