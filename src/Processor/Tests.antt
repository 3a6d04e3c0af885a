-- ===== src/Processor/Tests.antt =====
-- A pool of two workers with a queue of two places, and messages for it.
use sentinelstream.Prelude.{
  ◌≡◌, ◌≢◌, ◌↔◌, refl, true, false, none, some, List, [], ◌∷◌, ◌++◌, pos, length, ok, err, returns,
  panics, send,
}
use sentinelstream.Float.{whole}
use sentinelstream.Protocol.Types.{TelemetryMessage, DroneData}
use sentinelstream.Protocol.Parser.{Codec}
use sentinelstream.State.Store.{new_state_store}
use sentinelstream.Metrics.Latency.{Snapshot, new_latency_recorder}
use sentinelstream.Processor.Worker.{Worker, Shared, Readings, new_worker, check_payload}
use sentinelstream.Processor.Outcomes.{is_invalid, Fits, IsAnomalous, check_payload_exact}
use sentinelstream.Processor.Handling.{process_all, fresh, IsSound, process_all-IsSound}
use sentinelstream.Processor.Pool.{
  ProcessorConfig, Processor, ProcessorStats, no_totals, stats, or_default, new_processor, start,
  start_workers, stop, enqueue, try_enqueue, Reading, wait_for_quiescence,
}
use sentinelstream.Processor.System.{
  System, Message, Reach, here, next, admit, sent, tally, selecting, enqueues, done,
}
use sentinelstream.Processor.States.{Inv}
use sentinelstream.Processor.Invariant.{started, pool_invariant}
use sentinelstream.Processor.Lifecycle.{IsLive, leavers, restart_panics, stop_may_strand}
use sentinelstream.Processor.Stats.{IsSum, stats-IsSum, wait_for_quiescence_ends}

abbrev flat : DroneData
flat = record {
  latitude = whole (pos 52);
  longitude = whole (pos 13);
  altitude = whole (pos 34);
  battery = pos 101;
  signal = pos 50;
}

-- A decoder that knows one payload.
abbrev codec : Codec
codec = record {
  telemetry_message = λ bytes. err "unexpected end of JSON input";
  gps_data = λ bytes. err "unexpected end of JSON input";
  drone_data = λ bytes. ok flat;
  radar_data = λ bytes. err "unexpected end of JSON input";
  temperature_sensor_data = λ bytes. err "unexpected end of JSON input";
  pressure_sensor_data = λ bytes. err "unexpected end of JSON input";
  vibration_sensor_data = λ bytes. err "unexpected end of JSON input";
  vehicle_data = λ bytes. err "unexpected end of JSON input";
  asset_tracker_data = λ bytes. err "unexpected end of JSON input";
  power_grid_data = λ bytes. err "unexpected end of JSON input";
  weather_station_data = λ bytes. err "unexpected end of JSON input";
  patient_vitals_data = λ bytes. err "unexpected end of JSON input";
  medical_device_data = λ bytes. err "unexpected end of JSON input";
}

abbrev drone_message : TelemetryMessage
drone_message = record {
  sensor_id = "drone-1";
  sensor_type = "drone";
  sequence = 1;
  timestamp = pos 5;
  payload = 123 ∷ 125 ∷ [];
}

abbrev at : Readings
at = record { start = pos 10; updated = pos 11; processed = pos 12; delivered = pos 13 }

check_payload_exact_example :
    ((check_payload codec drone_message ≡ none) ↔ Fits codec drone_message)
    × ((is_invalid (check_payload codec drone_message) ≡ true) ↔ IsAnomalous codec drone_message)
check_payload_exact_example = check_payload_exact codec drone_message

abbrev items : List (Readings × TelemetryMessage)
items = (at, record drone_message { sequence = 3 }) ∷ (at, drone_message) ∷ []

process_all-IsSound_example :
    (s : Shared) × (w : Worker) × (process_all codec items (fresh, new_worker 0) ≡ some (s, w))
    × IsSound codec items s w
process_all-IsSound_example = process_all-IsSound codec 0 items

abbrev config : ProcessorConfig
config = record { num_workers = pos 2; queue_size = pos 2 }

abbrev pool : Processor
pool = (start (new_processor config new_state_store)).0

abbrev msg : Message
msg = some drone_message

pool-IsLive : IsLive pool
unfolding start new_processor
pool-IsLive = record { running = refl; open_stop = refl; open_jobs = refl }

restart_panics_example :
    (q : Processor) × (r : Processor) × (stop pool ≡ returns (q, none))
    × (start q ≡ (r, none))
    × (r.is_running ≡ true)
    × (stop r ≡ panics)
    × (try_enqueue msg r ≡ panics)
    × (enqueue true msg r ≡ panics)
    × (enqueue false msg r ≡ returns (r, some "processor stopping"))
restart_panics_example = restart_panics pool msg pool-IsLive

abbrev system : System
system = started config new_state_store

abbrev admitted : System
admitted = record system { callers = selecting enqueues msg ∷ [] }

stop_may_strand_example :
    (t : System) × Reach (started config new_state_store) t
    × (t.crashed ≡ false)
    × (t.stopping ≡ done)
    × (t.phases ≡ leavers (or_default (pos 2) 4))
    × (t.accepted ≡ msg ∷ [])
    × (t.taken ≡ [])
    × (t.proc.jobs.buffer ≡ msg ∷ [])
stop_may_strand_example = stop_may_strand config new_state_store msg

abbrev filled : Processor
filled = record (system.proc) {
  jobs = record (system.proc.jobs) { buffer = msg ∷ [] };
  total_messages_enqueued = 1;
}

filled-Reach : Reach system (record system { proc = filled; callers = []; accepted = msg ∷ [] })
unfolding started start new_processor send
filled-Reach =
    next
      (next (next here (admit enqueues msg refl refl)) (
        sent enqueues true msg [] []
          (record (system.proc) { jobs = record (system.proc.jobs) { buffer = msg ∷ [] } }) refl
          refl refl))
      (tally [] [] refl refl)

pool_invariant_example :
    Inv
      (or_default (pos 2) 1000)
      (record system { proc = filled; callers = []; accepted = msg ∷ [] })
pool_invariant_example = pool_invariant config new_state_store filled-Reach

-- With small recorders.
abbrev small : Processor
small = record pool {
  shared = record {
    store = new_state_store;
    processing_latency = new_latency_recorder (pos 2);
    end_to_end_latency = new_latency_recorder (pos 2);
  };
}

abbrev no_samples : Snapshot
no_samples = record { count = 0; min = pos 0; p50 = pos 0; p95 = pos 0; p99 = pos 0; max = pos 0 }

stats-IsSum_example :
    (r : ProcessorStats) × (stats small ≡ some r)
    × IsSum no_totals (new_worker 0 ∷ new_worker 1 ∷ []) r.totals
    × (r.queue_depth ≡ length small.jobs.buffer)
unfolding start start_workers new_processor
stats-IsSum_example = stats-IsSum small (new_worker 0 ∷ new_worker 1 ∷ []) refl

abbrev busy_reading : Reading
busy_reading = record { running = true; depth = 2; at = pos 3 }

abbrev empty_reading : Reading
empty_reading = record { running = true; depth = 0; at = pos 4 }

wait_for_quiescence_ends_example :
    wait_for_quiescence (pos 2) (busy_reading ∷ [] ++ busy_reading ∷ []) ≢ none
wait_for_quiescence_ends_example =
    wait_for_quiescence_ends (pos 2) (busy_reading ∷ []) busy_reading [] refl
