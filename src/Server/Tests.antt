-- ===== src/Server/Tests.antt =====
-- A server with a queue for three messages that forwards two.
mod Traffic
use sentinelstream.Prelude.{
  ℕ, suc, true, map, err, ◌≡◌, refl, Option, none, some, List, [], ◌∷◌, String, Result, ok, pos,
  arith, returns,
}
use sentinelstream.Protocol.Types.{TelemetryMessage, GpsData}
use sentinelstream.Replay.Scanner.{drop_cr}
use sentinelstream.Replay.Files.{replay}
use sentinelstream.Replay.Roundtrip.{IsRecordable, record_all, hand_on}
use sentinelstream.Replay.Command.{Report, replayed, replay_command, patience, finish, reported}
use sentinelstream.Clock.{add_duration}
use sentinelstream.Float.{whole}
use sentinelstream.Protocol.Parser.{Codec}
use sentinelstream.Processor.Worker.{Worker, Shared, Readings, new_worker}
use sentinelstream.Processor.Handling.{process_all}
use sentinelstream.Processor.Stats.{FindsEmpty}
use sentinelstream.Processor.Pool.{Processor, Reading}
use sentinelstream.Server.Reporting.{recorded_of, worked_off, IsFaithful, replay_command-reported}
use sentinelstream.Server.{Services, Pipeline, boot}
use sentinelstream.Server.Forwarding.{flags_of, forward_all, boot-forward_all}

abbrev message : TelemetryMessage
message = record {
  sensor_id = "gps-1";
  sensor_type = "gps";
  sequence = 7;
  timestamp = pos 400;
  payload = 123 ∷ 125 ∷ [];
}

abbrev two : List TelemetryMessage
two = message ∷ message ∷ []

abbrev marshal : TelemetryMessage → Result String (List ℕ)
marshal msg = ok (123 ∷ 125 ∷ [])

abbrev unmarshal : List ℕ → Result String TelemetryMessage
unmarshal bytes = ok message

abbrev count : TelemetryMessage → ℕ → ℕ × Option String
count msg n = (suc n, none)

message-IsRecordable : IsRecordable marshal unmarshal message
unfolding drop_cr
message-IsRecordable = record {
  bytes = 123 ∷ 125 ∷ [];
  marshalled = refl;
  line = record {
    no_newline = (ground arith, (ground arith, tt));
    no_return = refl;
    short = omega arith;
  };
  not_empty = omega arith;
  read_back = refl;
}

boot-forward_all_example :
    (services : Services) × (boot
        (flags_of (pos 9000) (pos 9001) (pos 8) 2 (pos 5) (pos 1))
        none
        none
      ≡ returns (ok services))
    × (p : Pipeline) × (forward_all marshal two (record { proc = services.proc; file = some [] })
        ≡ returns p)
    × (p.proc.jobs.buffer ≡ some message ∷ some message ∷ [])
    × (file : List ℕ) × (p.file ≡ some file)
    × (replay unmarshal (λ i. none) count (ok file) 0 ≡ hand_on (λ i. none) count 0 0 two 0)
boot-forward_all_example =
    boot-forward_all marshal unmarshal (λ i. none) count 0 (pos 9000) (pos 9001) (pos 8) 2 (pos 5)
      (pos 1) two (omega arith) (message-IsRecordable, (message-IsRecordable, tt))

-- A decoder that finds a position in each payload.
abbrev fix : GpsData
fix = record {
  latitude = whole (pos 52);
  longitude = whole (pos 13);
  altitude = whole (pos 34);
  speed = whole (pos 3);
  heading = whole (pos 90);
}

abbrev one_position : Codec
one_position = record {
  telemetry_message = λ bytes. err "not known";
  gps_data = λ bytes. ok fix;
  drone_data = λ bytes. err "not known";
  radar_data = λ bytes. err "not known";
  temperature_sensor_data = λ bytes. err "not known";
  pressure_sensor_data = λ bytes. err "not known";
  vibration_sensor_data = λ bytes. err "not known";
  vehicle_data = λ bytes. err "not known";
  asset_tracker_data = λ bytes. err "not known";
  power_grid_data = λ bytes. err "not known";
  weather_station_data = λ bytes. err "not known";
  patient_vitals_data = λ bytes. err "not known";
  medical_device_data = λ bytes. err "not known";
}

abbrev clock : Readings
clock = record { start = pos 500; updated = pos 501; processed = pos 502; delivered = pos 503 }

abbrev items : List (Readings × TelemetryMessage)
items = (clock, message) ∷ (clock, message) ∷ []

abbrev quiet : List Reading
quiet =
    record { running = true; depth = 2; at = pos 600 }
    ∷ record { running = true; depth = 0; at = pos 700 }
    ∷ []

quiet-FindsEmpty : FindsEmpty (add_duration (pos 550) patience) quiet
unfolding add_duration
quiet-FindsEmpty = (
  record { running = true; depth = 2; at = pos 600 } ∷ [],
  record { running = true; depth = 0; at = pos 700 },
  [],
  refl,
  (refl, omega arith, refl, tt),
  refl,
  refl,
)

replay_command-reported_example :
    (p : Processor) × (s : Shared) × (w : Worker) × (report : Report) × (replay_command unmarshal
        (record { num_workers = pos 4; queue_size = pos 3 })
        (ok (record_all marshal (recorded_of items) []))
      ≡ replayed (returns p) 2 none)
    × (p.jobs.buffer ≡ map some (recorded_of items))
    × (process_all one_position items (p.shared, new_worker 0) ≡ some (s, w))
    × (finish (pos 550) quiet (worked_off s w p) 2 ≡ reported report)
    × IsFaithful one_position items report
replay_command-reported_example =
    replay_command-reported marshal unmarshal one_position (pos 4) 2 items (pos 550) quiet
      (omega arith) (message-IsRecordable, (message-IsRecordable, tt)) quiet-FindsEmpty
