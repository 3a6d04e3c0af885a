-- ===== src/Protocol/Tests.antt =====
-- Validators run on concrete payloads, and their theorems at them.
use sentinelstream.Prelude.{some, ok, err, ◌≡◌, refl, ◌↔◌, true, none, pos, negsuc, [], ◌∷◌}
use sentinelstream.Float.{whole}
use sentinelstream.Clock.{add_duration}
use sentinelstream.Protocol.Parsing.{parse_telemetry_message_exact}
use sentinelstream.Protocol.Parser.{Codec, invalid, parse_telemetry_message}
use sentinelstream.Protocol.Types.{
  TelemetryMessage, GpsData, DroneData, RadarData, TemperatureSensorData, VehicleData,
  PatientVitalsData,
}
use sentinelstream.Protocol.Validation.{
  ValidationError, fails, validate_telemetry_message, validate_gps_data, validate_drone_data,
  validate_radar_data, validate_temperature_sensor_data, validate_vehicle_data,
  validate_patient_vitals,
}
use sentinelstream.Protocol.Validation.Ranges.{
  GpsInRange, DroneInRange, RadarInRange, TemperatureInRange, VehicleInRange, VitalsInRange,
  IsWellFormed, validators_exact,
}

abbrev at_home : GpsData
at_home = record {
  latitude = whole (pos 52);
  longitude = whole (pos 13);
  altitude = whole (pos 34);
  speed = whole (pos 0);
  heading = whole (pos 270);
}

abbrev low_drone : DroneData
low_drone = record {
  latitude = whole (pos 52);
  longitude = whole (pos 13);
  altitude = whole (pos 34);
  battery = pos 101;
  signal = pos 50;
}

abbrev radar : RadarData
radar = record { target_count = pos 3; max_range = whole (pos 100); operational = true }

abbrev cold : TemperatureSensorData
cold = record { temperature = whole (negsuc 4); humidity = whole (pos 80); unit = "" }

abbrev van : VehicleData
van = record {
  latitude = whole (pos 52);
  longitude = whole (pos 181);
  speed = whole (pos 20);
  fuel = whole (pos 40);
  mileage = whole (pos 90000);
}

abbrev patient : PatientVitalsData
patient = record {
  heart_rate = pos 72;
  blood_pressure = "120/80";
  temperature = whole (pos 37);
  sp_o2 = pos 98;
}

abbrev message : TelemetryMessage
message = record {
  sensor_id = "gps-1";
  sensor_type = "gps";
  sequence = 7;
  timestamp = pos 400;
  payload = 123 ∷ 125 ∷ [];
}

silent_radar_test :
    validate_radar_data (record radar { target_count = negsuc 0 })
    ≡ fails "target_count" "must be non-negative"
unfolding validate_radar_data
silent_radar_test = refl

message_test : validate_telemetry_message (pos 300) message ≡ none
unfolding validate_telemetry_message add_duration
message_test = refl

validators_exact_example :
    ((validate_gps_data at_home ≡ none) ↔ GpsInRange at_home)
    × ((validate_drone_data low_drone ≡ none) ↔ DroneInRange low_drone)
    × ((validate_radar_data radar ≡ none) ↔ RadarInRange radar)
    × ((validate_temperature_sensor_data cold ≡ none) ↔ TemperatureInRange cold)
    × ((validate_vehicle_data van ≡ none) ↔ VehicleInRange van)
    × ((validate_patient_vitals patient ≡ none) ↔ VitalsInRange patient)
validators_exact_example = validators_exact at_home low_drone radar cold van patient

-- A decoder that knows one message.
abbrev codec : Codec
codec = record {
  telemetry_message = λ bytes. ok message;
  gps_data = λ bytes. err "unexpected end of JSON input";
  drone_data = λ bytes. err "unexpected end of JSON input";
  radar_data = λ bytes. err "unexpected end of JSON input";
  temperature_sensor_data = λ bytes. err "unexpected end of JSON input";
  pressure_sensor_data = λ bytes. err "unexpected end of JSON input";
  vibration_sensor_data = λ bytes. err "unexpected end of JSON input";
  vehicle_data = λ bytes. err "unexpected end of JSON input";
  asset_tracker_data = λ bytes. err "unexpected end of JSON input";
  power_grid_data = λ bytes. err "unexpected end of JSON input";
  weather_station_data = λ bytes. err "unexpected end of JSON input";
  patient_vitals_data = λ bytes. err "unexpected end of JSON input";
  medical_device_data = λ bytes. err "unexpected end of JSON input";
}

abbrev late : ValidationError
late = record { field = "timestamp"; reason = "cannot be in the future" }

parse_telemetry_message_exact_example :
    ((parse_telemetry_message codec (pos 300) (123 ∷ []) ≡ ok message)
      ↔ ((codec.telemetry_message (123 ∷ []) ≡ ok message) × IsWellFormed (pos 300) message))
    × ((parse_telemetry_message codec (pos 300) (123 ∷ []) ≡ err (invalid late)) ↔ (
        (m : TelemetryMessage) × (codec.telemetry_message (123 ∷ []) ≡ ok m)
        × (validate_telemetry_message (pos 300) m ≡ some late)))
parse_telemetry_message_exact_example =
    parse_telemetry_message_exact codec (pos 300) (123 ∷ []) message late
