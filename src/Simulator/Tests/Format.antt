-- ===== src/Simulator/Tests/Format.antt =====
-- Random numbers that are all alike, and a text for the data of the sensors.
use sentinelstream.Prelude.{
  ℕ, zero, suc, ◌+◌, ◌≡◌, refl, sym, subst, ◌∙◌, Bool-cases, inl, inr, List, [], ◌∷◌, String,
  str_eq, str_eq_iff, Result, ok, err, ◌>>=◌, ℤ, pos, negsuc, arith, if◌then◌else◌,
}
use sentinelstream.Float.{Float64, nan, neg_inf, pos_inf, finite}
use sentinelstream.Float.Arith.{dyadic}
use sentinelstream.Float.Bounds.{half_in_unit}
use sentinelstream.Protocol.Types.{
  TelemetryMessage, GpsData, DroneData, VehicleData, TemperatureSensorData,
}
use sentinelstream.Protocol.Parser.{Codec}
use sentinelstream.Simulator.Random.{Random, IsRandom, Marshaller}
use sentinelstream.Simulator.Messages.{IsReadBack}

-- Every number is 1/2, or 0; the state counts them.
abbrev pub rand : Random ℕ
rand = record {
  new_source = λ seed. 0;
  float64 = λ s. (dyadic 1 1, s + 1);
  intn = λ n s. (pos 0, s + 1);
}

pub rand-IsRandom : IsRandom ℕ rand
rand-IsRandom = record {
  at_least = λ s. half_in_unit.0;
  below = λ s. half_in_unit.1;
  from = λ n s h. omega arith;
  to = λ n s h. omega arith;
}

-- A float64 as two numbers.
abbrev float_text : Float64 → List ℕ → List ℕ
float_text nan rest = 0 ∷ 0 ∷ rest
float_text neg_inf rest = 1 ∷ 0 ∷ rest
float_text pos_inf rest = 2 ∷ 0 ∷ rest
float_text (finite (pos n)) rest = 3 ∷ n ∷ rest
float_text (finite (negsuc n)) rest = 4 ∷ n ∷ rest

abbrev float_of : ℕ → ℕ → Float64
float_of zero n = nan
float_of (suc zero) n = neg_inf
float_of (suc (suc zero)) n = pos_inf
float_of (suc (suc (suc zero))) n = finite (pos n)
float_of (suc (suc (suc (suc k)))) n = finite (negsuc n)

abbrev Reader : Type 0 → Type 0
Reader A = List ℕ → Result String (A × List ℕ)

abbrev read_float : Reader Float64
read_float [] = err "unexpected end of input"
read_float (k ∷ []) = err "unexpected end of input"
read_float (k ∷ n ∷ rest) = ok (float_of k n, rest)

read_float-text : (x : Float64) (rest : List ℕ) → read_float (float_text x rest) ≡ ok (x, rest)
read_float-text nan rest = refl
read_float-text neg_inf rest = refl
read_float-text pos_inf rest = refl
read_float-text (finite (pos n)) rest = refl
read_float-text (finite (negsuc n)) rest = refl

-- Three float64, which all data but that of a temperature sensor starts with.
abbrev triple_text : Float64 → Float64 → Float64 → List ℕ → List ℕ
triple_text x y z rest = float_text x (float_text y (float_text z rest))

abbrev read_triple : Reader (Float64 × Float64 × Float64)
read_triple bytes = do
  (x, more) ← read_float bytes
  (y, most) ← read_float more
  (z, rest) ← read_float most
  ok ((x, y, z), rest)

read_triple-text :
    (x y z : Float64) (rest : List ℕ) → read_triple (triple_text x y z rest) ≡ ok ((x, y, z), rest)
read_triple-text x y z rest =
    rw
      (
        read_float-text x (float_text y (float_text z rest)),
        read_float-text y (float_text z rest),
        read_float-text z rest,
      )
      refl

abbrev read_gps : List ℕ → Result String GpsData
read_gps bytes = do
  ((x, y, z), more) ← read_triple bytes
  (speed, rest) ← read_float more
  (heading, end) ← read_float rest
  ok (record { latitude = x; longitude = y; altitude = z; speed = speed; heading = heading })

abbrev gps_text : GpsData → List ℕ
gps_text d =
    triple_text d.latitude d.longitude d.altitude (float_text d.speed (float_text d.heading []))

read_gps-text : (d : GpsData) → read_gps (gps_text d) ≡ ok d
read_gps-text d =
    rw
      (
        read_triple-text d.latitude d.longitude d.altitude
            (float_text d.speed (float_text d.heading [])),
        read_float-text d.speed (float_text d.heading []),
        read_float-text d.heading [],
      )
      refl

abbrev read_vehicle : List ℕ → Result String VehicleData
read_vehicle bytes = do
  ((x, y, z), more) ← read_triple bytes
  (fuel, rest) ← read_float more
  (mileage, end) ← read_float rest
  ok (record { latitude = x; longitude = y; speed = z; fuel = fuel; mileage = mileage })

abbrev vehicle_text : VehicleData → List ℕ
vehicle_text d =
    triple_text d.latitude d.longitude d.speed (float_text d.fuel (float_text d.mileage []))

read_vehicle-text : (d : VehicleData) → read_vehicle (vehicle_text d) ≡ ok d
read_vehicle-text d =
    rw
      (
        read_triple-text d.latitude d.longitude d.speed
            (float_text d.fuel (float_text d.mileage [])),
        read_float-text d.fuel (float_text d.mileage []),
        read_float-text d.mileage [],
      )
      refl

-- Whole numbers are written as float64 of the same steps.
abbrev whole_of : Float64 → Result String ℤ
whole_of nan = err "not a number"
whole_of neg_inf = err "not a number"
whole_of pos_inf = err "not a number"
whole_of (finite k) = ok k

abbrev read_drone : List ℕ → Result String DroneData
read_drone bytes = do
  ((x, y, z), more) ← read_triple bytes
  (b, rest) ← read_float more
  (s, end) ← read_float rest
  battery ← whole_of b
  signal ← whole_of s
  ok (record { latitude = x; longitude = y; altitude = z; battery = battery; signal = signal })

abbrev drone_text : DroneData → List ℕ
drone_text d =
    triple_text d.latitude d.longitude d.altitude
      (float_text (finite d.battery) (float_text (finite d.signal) []))

read_drone-text : (d : DroneData) → read_drone (drone_text d) ≡ ok d
read_drone-text d =
    rw
      (
        read_triple-text d.latitude d.longitude d.altitude
            (float_text (finite d.battery) (float_text (finite d.signal) [])),
        read_float-text (finite d.battery) (float_text (finite d.signal) []),
        read_float-text (finite d.signal) [],
      )
      refl

abbrev read_temperature : List ℕ → Result String TemperatureSensorData
read_temperature bytes = do
  (t, more) ← read_float bytes
  (h, end) ← read_float more
  ok (record { temperature = t; humidity = h; unit = "celsius" })

-- Only degrees Celsius have a text.
abbrev temperature_text : TemperatureSensorData → Result String (List ℕ)
temperature_text d =
    if str_eq d.unit "celsius"
    then ok (float_text d.temperature (float_text d.humidity []))
    else err "unsupported unit"

ok-same : (a b : List ℕ) → ◌≡◌ {A = Result String (List ℕ)} (ok a) (ok b) → a ≡ b
ok-same a b e = cc

err-ne-ok : (x : String) (b : List ℕ) → ◌≡◌ {A = Result String (List ℕ)} (err x) (ok b) → ⊥
err-ne-ok x b e = cc

read_temperature-text :
    (d : TemperatureSensorData) (bytes : List ℕ)
    → temperature_text d ≡ ok bytes
    → read_temperature bytes ≡ ok d
read_temperature-text d bytes e = elim (Bool-cases (str_eq d.unit "celsius")) [
  | inl h ↦
      let text : List ℕ = float_text d.temperature (float_text d.humidity []) in
      let taken : temperature_text d ≡ ok text = rw h refl in
      let same : text ≡ bytes = ok-same text bytes (sym taken ∙ e) in
      let named : d.unit ≡ "celsius" = (str_eq_iff d.unit "celsius").0 h in
      subst (λ b. read_temperature b ≡ ok d) same
        (rw
          (
            read_float-text d.temperature (float_text d.humidity []),
            read_float-text d.humidity [],
            sym named,
          )
          refl)
  | inr h ↦
      let refused : temperature_text d ≡ err "unsupported unit" = rw h refl in
      absurd (err-ne-ok "unsupported unit" bytes (sym refused ∙ e))
]

abbrev pub message : TelemetryMessage
message = record {
  sensor_id = "gps-0";
  sensor_type = "gps";
  sequence = 1;
  timestamp = pos 400;
  payload = 123 ∷ 125 ∷ [];
}

-- A text is known for one message.
abbrev pub marshal : Marshaller
marshal = record {
  telemetry_message = λ msg. ok (123 ∷ 125 ∷ []);
  gps_data = λ d. ok (gps_text d);
  drone_data = λ d. ok (drone_text d);
  vehicle_data = λ d. ok (vehicle_text d);
  temperature_sensor_data = temperature_text;
}

abbrev pub codec : Codec
codec = record {
  telemetry_message = λ bytes. ok message;
  gps_data = read_gps;
  drone_data = read_drone;
  radar_data = λ bytes. err "unexpected end of JSON input";
  temperature_sensor_data = read_temperature;
  pressure_sensor_data = λ bytes. err "unexpected end of JSON input";
  vibration_sensor_data = λ bytes. err "unexpected end of JSON input";
  vehicle_data = read_vehicle;
  asset_tracker_data = λ bytes. err "unexpected end of JSON input";
  power_grid_data = λ bytes. err "unexpected end of JSON input";
  weather_station_data = λ bytes. err "unexpected end of JSON input";
  patient_vitals_data = λ bytes. err "unexpected end of JSON input";
  medical_device_data = λ bytes. err "unexpected end of JSON input";
}

-- A text that is known to be read back.
from_text :
    {A : Type 0} (read : List ℕ → Result String A) (a : A) (text bytes : List ℕ)
    → read text ≡ ok a
    → ◌≡◌ {A = Result String (List ℕ)} (ok text) (ok bytes)
    → read bytes ≡ ok a
from_text read a text bytes h e = subst (λ b. read b ≡ ok a) (ok-same text bytes e) h

pub codec-IsReadBack : IsReadBack codec marshal
codec-IsReadBack = record {
  gps_data = λ d bytes e. from_text read_gps d (gps_text d) bytes (read_gps-text d) e;
  drone_data = λ d bytes e. from_text read_drone d (drone_text d) bytes (read_drone-text d) e;
  vehicle_data =
      λ d bytes e. from_text read_vehicle d (vehicle_text d) bytes (read_vehicle-text d) e;
  temperature_sensor_data = λ d bytes h e. read_temperature-text d bytes e;
}
