-- ===== src/Simulator/Generated.antt =====
-- What the generators send is data in range, whatever the random numbers.
use sentinelstream.Prelude.{
  ℕ, ◌+◌, ◌≤◌, inr, arith, ℤ, pos, negsuc, ◌≤ℤ◌, ◌<ℤ◌, ◌+ℤ◌, +ℤ_parts, String,
}
use sentinelstream.Float.{Float64, whole, scale, units_pos, AtLeast}
use sentinelstream.Float.Arith.{max_float, sub_float, to_int}
use sentinelstream.Float.Bounds.{
  MayReach, clamp-MayLie, floor-MayReach, add-MayReach, div-MayReach, mul-AtLeast,
}
use sentinelstream.Float.Quotients.{sub-AtMost, floored-le}
use sentinelstream.Protocol.Validation.Ranges.{
  GpsInRange, DroneInRange, VehicleInRange, TemperatureInRange, Within,
}
use sentinelstream.Simulator.Random.{Random, IsRandom}
use sentinelstream.Simulator.Sensors.{
  GpsSensor, DroneSensor, VehicleSensor, TemperatureSensor, move_gps, move_drone, move_vehicle,
  move_temperature, new_drone_sensor, new_vehicle_sensor,
}
use sentinelstream.Simulator.Generators.{
  Generator, gps, drone, vehicle, temperature, gps_data, drone_data, vehicle_data, temperature_data,
}
use sentinelstream.Simulator.Moving.{move}

-- What a sensor must keep for its data to stay in range.
abbrev pub IsReady : {S : Type 0} → Generator S → Type 0
IsReady (gps g) = Unit
IsReady (drone g) = Within (pos 0) (pos 100) g.battery
IsReady (vehicle g) = MayReach (pos 0) g.mileage
IsReady (temperature g) = Unit

-- The data of the generator is in range.
abbrev pub IsInRange : {S : Type 0} → Generator S → Type 0
IsInRange (gps g) = GpsInRange (gps_data g)
IsInRange (drone g) = DroneInRange (drone_data g)
IsInRange (vehicle g) = VehicleInRange (vehicle_data g)
IsInRange (temperature g) = TemperatureInRange (temperature_data g)

latitudes : scale (negsuc 89) ≤ℤ scale (pos 90)
unfolding scale
latitudes = ground (arith, units_pos)

longitudes : scale (negsuc 179) ≤ℤ scale (pos 180)
unfolding scale
longitudes = ground (arith, units_pos)

percents : scale (pos 0) ≤ℤ scale (pos 100)
unfolding scale
percents = ground (arith, units_pos)

-- A battery that is drained.
drained-Within :
    (z : ℤ) (x : Float64)
    → Within (pos 0) (pos 100) z
    → AtLeast (pos 0) x
    → Within (pos 0) (pos 100) (to_int (max_float (whole (pos 0)) (sub_float (whole z) x)))
drained-Within (pos b) x h k =
    let bound : b ≤ 100 = omega arith in
    let drained = floored-le b (sub_float (whole (pos b)) x) (sub-AtMost b x bound k) in
    (drained.0, omega (arith, drained.1))
drained-Within (negsuc n) x h k = absurd (omega arith)

sum-Within :
    (a m : ℕ) (n : ℤ)
    → a + m ≤ 100
    → pos 0 ≤ℤ n
    → n <ℤ pos m
    → Within (pos 0) (pos 100) (pos a +ℤ n)
sum-Within a m n h lo hi = ground (arith, +ℤ_parts (pos a) n)

module _ {S : Type 0} (rand : Random S) where
  move_gps-IsInRange : (g : GpsSensor S) → IsInRange (gps (move_gps rand g))
  unfolding move_gps
  move_gps-IsInRange g = record {
    latitude = clamp-MayLie (negsuc 89) (pos 90) _ latitudes;
    longitude = clamp-MayLie (negsuc 179) (pos 180) _ longitudes;
    altitude = floor-MayReach (pos 0) _;
    speed = floor-MayReach (pos 0) _;
  }

  move_temperature-IsInRange :
      (g : TemperatureSensor S) → IsInRange (temperature (move_temperature rand g))
  unfolding move_temperature
  move_temperature-IsInRange g = record {
    humidity = clamp-MayLie (pos 0) (pos 100) _ percents;
    unit = λ e. cc;
  }

  move_vehicle-IsInRange :
      (g : VehicleSensor S) → MayReach (pos 0) g.mileage → IsInRange (vehicle (move_vehicle rand g))
  unfolding move_vehicle
  move_vehicle-IsInRange g h = record {
    latitude = clamp-MayLie (negsuc 89) (pos 90) _ latitudes;
    longitude = clamp-MayLie (negsuc 179) (pos 180) _ longitudes;
    speed = floor-MayReach (pos 0) _;
    fuel = floor-MayReach (pos 0) _;
    mileage = add-MayReach _ _ h (div-MayReach _ 10 (floor-MayReach (pos 0) _));
  }

  move_drone-IsInRange :
      IsRandom S rand
      → (g : DroneSensor S) → Within (pos 0) (pos 100) g.battery
      → IsInRange (drone (move_drone rand g))
  unfolding move_drone
  move_drone-IsInRange r g h = record {
    latitude = clamp-MayLie (negsuc 89) (pos 90) _ latitudes;
    longitude = clamp-MayLie (negsuc 179) (pos 180) _ longitudes;
    altitude = floor-MayReach (pos 0) _;
    battery = drained-Within g.battery _ h (mul-AtLeast _ 1 (r.at_least _));
    signal = sum-Within 50 50 _ (omega arith) (r.from 50 _ (omega arith)) (r.to 50 _ (omega arith));
  }

  pub move-IsInRange : IsRandom S rand → (g : Generator S) → IsReady g → IsInRange (move rand g)
  move-IsInRange r (gps g) h = move_gps-IsInRange g
  move-IsInRange r (drone g) h = move_drone-IsInRange r g h
  move-IsInRange r (vehicle g) h = move_vehicle-IsInRange g h
  move-IsInRange r (temperature g) h = move_temperature-IsInRange g

pub IsInRange-IsReady : {S : Type 0} (g : Generator S) → IsInRange g → IsReady g
IsInRange-IsReady (gps g) h = tt
IsInRange-IsReady (drone g) h = h.battery
IsInRange-IsReady (vehicle g) h = h.mileage
IsInRange-IsReady (temperature g) h = tt

-- A new sensor is ready, and has sent nothing.
pub new_drone-IsReady :
    {S : Type 0} (rand : Random S)
    → IsRandom S rand
    → (id : String) (seed : ℤ) (s : S) → IsReady (drone (new_drone_sensor rand id seed s).0)
unfolding new_drone_sensor
new_drone-IsReady rand r id seed s =
    sum-Within 80 20 _ (omega arith) (r.from 20 _ (omega arith)) (r.to 20 _ (omega arith))

pub new_vehicle-IsReady :
    {S : Type 0} (rand : Random S)
    → IsRandom S rand
    → (id : String) (seed : ℤ) (s : S) → IsReady (vehicle (new_vehicle_sensor rand id seed s).0)
unfolding new_vehicle_sensor
new_vehicle-IsReady rand r id seed s = inr (mul-AtLeast _ 99999 (r.at_least _))
