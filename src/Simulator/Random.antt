-- ===== src/Simulator/Random.antt =====
-- What internal/simulator/generator.go uses of the packages `math/rand` and `encoding/json`.
use sentinelstream.Prelude.{
  ℕ, ◌<◌, ◌≡◌, true, ℤ, pos, ◌≤ℤ◌, ◌<ℤ◌, List, [], String, Result, ok, err,
}
use sentinelstream.Float.{Float64, whole, ltb_float, AtLeast}
use sentinelstream.Protocol.Types.{
  TelemetryMessage, GpsData, DroneData, VehicleData, TemperatureSensorData,
}

-- A source of random numbers, by its state: `rand.New(rand.NewSource(seed))`, `Float64()`, and
-- `Intn(n)` for a positive `n`.
pub record Random (S : Type 0) : Type 0 where
  pub new_source : ℤ → S
  pub float64 : S → Float64 × S
  pub intn : ℕ → S → ℤ × S

-- The package's promise: `Float64()` lies in [0, 1) and `Intn(n)` in [0, n).
pub record IsRandom (S : Type 0) (rand : Random S) : Type 0 where
  pub at_least : (s : S) → AtLeast (pos 0) (rand.float64 s).0
  pub below : (s : S) → ltb_float (rand.float64 s).0 (whole (pos 1)) ≡ true
  pub from : (n : ℕ) (s : S) → 0 < n → pos 0 ≤ℤ (rand.intn n s).0
  pub to : (n : ℕ) (s : S) → 0 < n → (rand.intn n s).0 <ℤ pos n

-- `json.Marshal`, one field for each type that it is called at.
pub record Marshaller : Type 0 where
  pub telemetry_message : TelemetryMessage → Result String (List ℕ)
  pub gps_data : GpsData → Result String (List ℕ)
  pub drone_data : DroneData → Result String (List ℕ)
  pub vehicle_data : VehicleData → Result String (List ℕ)
  pub temperature_sensor_data : TemperatureSensorData → Result String (List ℕ)

-- `dataJSON, _ := json.Marshal(data)`: an error leaves no bytes.
abbrev pub ignore_error : Result String (List ℕ) → List ℕ
ignore_error (ok bytes) = bytes
ignore_error (err e) = []
