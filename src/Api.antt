-- ===== src/Api.antt =====
-- internal/api/api.go: what the handlers answer. The HTTP server and the encoding of the answers
-- belong to the standard library.
pub mod Listing
pub mod Routes
pub mod Serving
mod Tests
use sentinelstream.Prelude.{
  ℕ, suc, ◌+◌, ◌%◌, ◌≡◌, refl, ◌∙◌, ap, sym, ◌↔◌, ◌≢◌, ◌⊎◌, inl, inr, Bool, true, false, Option,
  none, some, List, [], ◌∷◌, String, str_eq, str_eq_iff, if◌then◌else◌, ℤ, arith, lookup, values,
  add64, u64_mod, map, length, Option-cases,
}
use sentinelstream.Prelude.Panic.{◌>>=◌}
use sentinelstream.Clock.{Time}
use sentinelstream.State.Store.{
  StateStore, SensorState, SensorEntry, Sensors, Status, healthy, stale, unset, get, list, count,
}
use sentinelstream.State.Log.{Call, after}
use sentinelstream.State.Keys.{IsKeyed, after-IsKeyed}
use sentinelstream.Processor.Pool.{Processor, ProcessorStats, stats}
use sentinelstream.Ingestion.Udp.{UdpListener, ListenerStats}
use sentinelstream.Ingestion.Udp
use sentinelstream.Ingestion.Tcp.{TcpListener}
use sentinelstream.Ingestion.Tcp

pub record Server : Type 0 where
  pub store : StateStore
  pub proc : Processor
  pub udp : UdpListener
  pub tcp : TcpListener

pub record SensorSummary : Type 0 where
  pub sensor_id : String
  pub sensor_type : String
  pub status : Status
  pub last_seen : Time

pub record SensorDetail : Type 0 where
  pub sensor_id : String
  pub sensor_type : String
  pub status : Status
  pub last_sequence : ℕ
  pub messages_received : ℕ
  pub messages_dropped : ℕ
  pub duplicates : ℕ
  pub out_of_order : ℕ
  pub errors : ℕ
  pub anomalies : ℕ
  pub last_seen : Time

unfoldable pub to_sensor_summary : SensorState → SensorSummary
to_sensor_summary sn = record {
  sensor_id = sn.sensor_id;
  sensor_type = sn.sensor_type;
  status = sn.status;
  last_seen = sn.last_seen;
}

unfoldable pub to_sensor_detail : SensorState → SensorDetail
to_sensor_detail sn = record {
  sensor_id = sn.sensor_id;
  sensor_type = sn.sensor_type;
  status = sn.status;
  last_sequence = sn.last_sequence;
  messages_received = sn.message_count;
  messages_dropped = sn.dropped_count;
  duplicates = sn.duplicate_count;
  out_of_order = sn.out_of_order_count;
  errors = sn.error_count;
  anomalies = sn.anomaly_count;
  last_seen = sn.last_seen;
}

unfoldable pub handle_list_sensors : Server → List SensorSummary
handle_list_sensors s = map to_sensor_summary (list s.store)

-- Status 200 with the detail, or 404 with the ID that was not found.
pub data SensorAnswer : Type 0 where
  found : SensorDetail → SensorAnswer
  not_found : String → SensorAnswer

unfoldable pub handle_get_sensor : String → Server → SensorAnswer
handle_get_sensor sensor_id s = elim (get sensor_id s.store) [
  | none ↦ not_found sensor_id
  | some sn ↦ found (to_sensor_detail sn)
]

pub record ListenerHealth : Type 0 where
  pub messages_received : ℕ
  pub messages_rejected : ℕ
  pub is_running : Bool

pub record TcpListenerHealth : Type 0 where
  pub messages_received : ℕ
  pub messages_rejected : ℕ
  pub active_connections : ℤ
  pub total_connections : ℕ
  pub is_running : Bool

pub record StreamHealth : Type 0 where
  pub udp : ListenerHealth
  pub tcp : TcpListenerHealth
  pub queue_depth : ℕ
  pub queue_capacity : ℤ
  pub workers_running : Bool

-- `none` is a panic in the `Stats` of the processor.
unfoldable pub handle_health_streams : Server → Option StreamHealth
handle_health_streams s = do
  let udp_stats = Udp.stats s.udp
  let tcp_stats = Tcp.stats s.tcp
  proc_stats ← stats s.proc
  some (record {
    udp = record {
      messages_received = udp_stats.messages_received;
      messages_rejected = udp_stats.messages_rejected;
      is_running = udp_stats.is_running;
    };
    tcp = record {
      messages_received = tcp_stats.messages_received;
      messages_rejected = tcp_stats.messages_rejected;
      active_connections = tcp_stats.active_connections;
      total_connections = tcp_stats.total_connections;
      is_running = tcp_stats.is_running;
    };
    queue_depth = proc_stats.queue_depth;
    queue_capacity = proc_stats.queue_size;
    workers_running = proc_stats.is_running;
  })

pub record MetricsSummary : Type 0 where
  pub messages_received : ℕ
  pub messages_processed : ℕ
  pub validation_errors : ℕ
  pub processing_errors : ℕ
  pub anomalies_detected : ℕ
  pub dropped_messages : ℕ
  pub duplicate_messages : ℕ
  pub out_of_order_messages : ℕ
  pub queue_depth : ℕ
  pub active_tcp_connections : ℤ
  pub healthy_sensors : ℕ
  pub stale_sensors : ℕ

-- The loop over the sensors: how many are healthy and how many stale.
unfoldable pub count_statuses : ℕ → ℕ → List SensorState → ℕ × ℕ
count_statuses healthy_count stale_count [] = (healthy_count, stale_count)
count_statuses healthy_count stale_count (sn ∷ sensors) = elim sn.status [
  | healthy ↦ count_statuses (healthy_count + 1) stale_count sensors
  | stale ↦ count_statuses healthy_count (stale_count + 1) sensors
  | unset ↦ count_statuses healthy_count stale_count sensors
]

-- The literal of `handleMetricsSummary`.
abbrev pub summarise : Server → ProcessorStats → MetricsSummary
unfolding count_statuses
summarise s proc_stats =
    let udp_stats = Udp.stats s.udp in
    let tcp_stats = Tcp.stats s.tcp in
    let (healthy_count, stale_count) = count_statuses 0 0 (list s.store) in
    record {
      messages_received = add64 udp_stats.messages_received tcp_stats.messages_received;
      messages_processed = proc_stats.totals.processed;
      validation_errors = add64 udp_stats.messages_rejected tcp_stats.messages_rejected;
      processing_errors = proc_stats.totals.errors;
      anomalies_detected = proc_stats.totals.anomalies;
      dropped_messages = proc_stats.totals.dropped;
      duplicate_messages = proc_stats.totals.duplicates;
      out_of_order_messages = proc_stats.totals.out_of_order;
      queue_depth = proc_stats.queue_depth;
      active_tcp_connections = tcp_stats.active_connections;
      healthy_sensors = healthy_count;
      stale_sensors = stale_count;
    }

unfoldable pub handle_metrics_summary : Server → Option MetricsSummary
handle_metrics_summary s = do proc_stats ← stats s.proc; some (summarise s proc_stats)
