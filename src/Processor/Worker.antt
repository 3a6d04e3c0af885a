-- ===== src/Processor/Worker.antt =====
-- internal/processor/worker.go: one worker and its handling of a message. The store and the two
-- latency recorders are shared by all workers. Log lines are left out, and so is the recovery from
-- a panic inside `processMessage`, since nothing that it guards panics in the model.
use sentinelstream.Prelude.{
  ℕ, Option, none, some, String, str_eq, if◌then◌else◌, ltb, Result, ok, err, add64,
}
use sentinelstream.Prelude.Panic.{◌>>=◌}
use sentinelstream.Clock.{Time, elapsed}
use sentinelstream.Protocol.Types.{TelemetryMessage}
use sentinelstream.Protocol.Parser.{
  Codec, ParseError, malformed, invalid, parse_gps_data, parse_drone_data, parse_vehicle_data,
  parse_temperature_sensor_data, parse_radar_data, parse_patient_vitals,
}
use sentinelstream.State.Store.{StateStore, UpdateResult, update, record_error, record_anomaly}
use sentinelstream.Metrics.Latency.{LatencyRecorder, record_sample}

-- The counters of a `Worker`, which are those of `WorkerStats`.
pub record Worker : Type 0 where
  pub id : ℕ
  pub messages_processed : ℕ
  pub errors : ℕ
  pub anomalies : ℕ
  pub dropped : ℕ
  pub duplicates : ℕ
  pub out_of_order : ℕ

pub record Shared : Type 0 where
  pub store : StateStore
  pub processing_latency : LatencyRecorder
  pub end_to_end_latency : LatencyRecorder

unfoldable pub new_worker : ℕ → Worker
new_worker id = record {
  id = id;
  messages_processed = 0;
  errors = 0;
  anomalies = 0;
  dropped = 0;
  duplicates = 0;
  out_of_order = 0;
}

-- The three tests on the result of `Update`.
unfoldable pub note_result : UpdateResult → Worker → Worker
note_result result w = record w {
  dropped = if ltb 0 result.dropped_count then add64 w.dropped result.dropped_count else w.dropped;
  duplicates = if result.is_duplicate then add64 w.duplicates 1 else w.duplicates;
  out_of_order = if result.is_out_of_order then add64 w.out_of_order 1 else w.out_of_order;
}

-- `_, err = parse(msg)`
abbrev pub error_of {ℓ} : {A : Type ℓ} → Result ParseError A → Option ParseError
error_of (ok a) = none
error_of (err e) = some e

-- The switch on `msg.SensorType`; a type that is not known is no error.
unfoldable pub check_payload : Codec → TelemetryMessage → Option ParseError
check_payload codec msg =
    if str_eq msg.sensor_type "gps"
    then error_of (parse_gps_data codec msg)
    else if str_eq msg.sensor_type "drone"
    then error_of (parse_drone_data codec msg)
    else if str_eq msg.sensor_type "vehicle"
    then error_of (parse_vehicle_data codec msg)
    else if str_eq msg.sensor_type "temperature"
    then error_of (parse_temperature_sensor_data codec msg)
    else if str_eq msg.sensor_type "radar"
    then error_of (parse_radar_data codec msg)
    else if str_eq msg.sensor_type "patient_vitals"
    then error_of (parse_patient_vitals codec msg)
    else none

-- What is counted behind the switch: `errors.As` finds a `ValidationError` only if it is one.
unfoldable pub note_outcome : String → Option ParseError → StateStore → Worker → StateStore × Worker
note_outcome sensor_id none store w =
    (store, record w { messages_processed = add64 w.messages_processed 1 })
note_outcome sensor_id (some (invalid e)) store w =
    (record_anomaly sensor_id store, record w { anomalies = add64 w.anomalies 1 })
note_outcome sensor_id (some (malformed context e)) store w =
    (record_error sensor_id store, record w { errors = add64 w.errors 1 })

-- The readings of the clock in one call: at the start, in `Update`, and in the deferred function.
pub record Readings : Type 0 where
  pub start : Time
  pub updated : Time
  pub processed : Time
  pub delivered : Time

-- `none` is a panic in a latency recorder.
unfoldable pub process_message :
    Codec → Readings → TelemetryMessage → Shared × Worker → Option (Shared × Worker)
process_message codec at msg (shared, w) = do
  let (store, result) = update at.updated msg shared.store
  let (store', w') =
      note_outcome msg.sensor_id (check_payload codec msg) store (note_result result w)
  processing ← record_sample (elapsed at.processed at.start) shared.processing_latency
  end_to_end ← record_sample (elapsed at.delivered msg.timestamp) shared.end_to_end_latency
  some (
      (
        record { store = store'; processing_latency = processing; end_to_end_latency = end_to_end },
        w',
      ))
