-- ===== src/Simulator/Sensors.antt =====
-- internal/simulator/generator.go. The random numbers of a constructor come from the source that
-- all packages share, those of `Next` from the sensor's own; `now` is `time.Now().UTC()`.
use sentinelstream.Prelude.{ℕ, ℤ, pos, negsuc, ◌+ℤ◌, String, add64}
use sentinelstream.Float.{Float64, whole}
use sentinelstream.Float.Arith.{
  add_float, sub_float, mul_float, div_whole, negate_float, max_float, min_float, mod_whole, to_int,
  dyadic,
}
use sentinelstream.Simulator.Random.{Random}

-- The float64 constants nearest to the decimals of the source.
abbrev half : Float64
half = dyadic 1 1

abbrev tenth : Float64
tenth = dyadic 3602879701896397 55

abbrev two_tenths : Float64
two_tenths = dyadic 3602879701896397 54

abbrev three_tenths : Float64
three_tenths = dyadic 5404319552844595 54

abbrev thousandth : Float64
thousandth = dyadic 1152921504606847 60

abbrev two_thousandths : Float64
two_thousandths = dyadic 1152921504606847 59

-- 47.6 and -122.3
abbrev seattle_lat : Float64
seattle_lat = dyadic 6699104445713613 47

abbrev seattle_lon : Float64
seattle_lon = negate_float (dyadic 8606097412928307 46)

-- `x + (r - 0.5) * width`
abbrev around : Float64 → Float64 → Float64 → Float64
around x r width = add_float x (mul_float (sub_float r half) width)

-- `math.Max(lo, math.Min(hi, x))`
abbrev clamp : ℤ → ℤ → Float64 → Float64
clamp lo hi x = max_float (whole lo) (min_float (whole hi) x)

pub record GpsSensor (S : Type 0) : Type 0 where
  pub id : String
  pub sequence : ℕ
  pub lat : Float64
  pub lon : Float64
  pub alt : Float64
  pub speed : Float64
  pub heading : Float64
  pub rng : S

pub record DroneSensor (S : Type 0) : Type 0 where
  pub id : String
  pub sequence : ℕ
  pub lat : Float64
  pub lon : Float64
  pub alt : Float64
  pub battery : ℤ
  pub signal : ℤ
  pub rng : S

pub record VehicleSensor (S : Type 0) : Type 0 where
  pub id : String
  pub sequence : ℕ
  pub lat : Float64
  pub lon : Float64
  pub speed : Float64
  pub fuel : Float64
  pub mileage : Float64
  pub rng : S

pub record TemperatureSensor (S : Type 0) : Type 0 where
  pub id : String
  pub sequence : ℕ
  pub temp : Float64
  pub humidity : Float64
  pub rng : S

module _ {S : Type 0} (rand : Random S) where
  -- A constructor also returns the state of the shared source.
  unfoldable pub new_gps_sensor : String → ℤ → S → GpsSensor S × S
  new_gps_sensor id seed s =
      let (r1, s1) = rand.float64 s in
      let (r2, s2) = rand.float64 s1 in
      let (r3, s3) = rand.float64 s2 in
      let (r4, s4) = rand.float64 s3 in
      let (r5, s5) = rand.float64 s4 in
      (
        record {
          id = id;
          sequence = 0;
          lat = around seattle_lat r1 two_tenths;
          lon = around seattle_lon r2 two_tenths;
          alt = mul_float r3 (whole (pos 500));
          speed = mul_float r4 (whole (pos 100));
          heading = mul_float r5 (whole (pos 360));
          rng = rand.new_source seed;
        },
        s5,
      )

  unfoldable pub new_drone_sensor : String → ℤ → S → DroneSensor S × S
  unfolding ◌+ℤ◌
  new_drone_sensor id seed s =
      let (r1, s1) = rand.float64 s in
      let (r2, s2) = rand.float64 s1 in
      let (r3, s3) = rand.float64 s2 in
      let (n4, s4) = rand.intn 20 s3 in
      let (n5, s5) = rand.intn 30 s4 in
      (
        record {
          id = id;
          sequence = 0;
          lat = around seattle_lat r1 tenth;
          lon = around seattle_lon r2 tenth;
          alt = mul_float r3 (whole (pos 300));
          battery = pos 80 +ℤ n4;
          signal = pos 70 +ℤ n5;
          rng = rand.new_source seed;
        },
        s5,
      )

  unfoldable pub new_vehicle_sensor : String → ℤ → S → VehicleSensor S × S
  new_vehicle_sensor id seed s =
      let (r1, s1) = rand.float64 s in
      let (r2, s2) = rand.float64 s1 in
      let (r3, s3) = rand.float64 s2 in
      let (r4, s4) = rand.float64 s3 in
      let (r5, s5) = rand.float64 s4 in
      (
        record {
          id = id;
          sequence = 0;
          lat = around seattle_lat r1 three_tenths;
          lon = around seattle_lon r2 three_tenths;
          speed = mul_float r3 (whole (pos 80));
          fuel = mul_float r4 (whole (pos 100));
          mileage = mul_float r5 (whole (pos 100000));
          rng = rand.new_source seed;
        },
        s5,
      )

  unfoldable pub new_temperature_sensor : String → ℤ → S → TemperatureSensor S × S
  new_temperature_sensor id seed s =
      let (r1, s1) = rand.float64 s in
      let (r2, s2) = rand.float64 s1 in
      (
        record {
          id = id;
          sequence = 0;
          temp = add_float (whole (pos 20)) (mul_float r1 (whole (pos 10)));
          humidity = add_float (whole (pos 30)) (mul_float r2 (whole (pos 40)));
          rng = rand.new_source seed;
        },
        s2,
      )

  -- The part of `Next` that moves the sensor on.
  unfoldable pub move_gps : GpsSensor S → GpsSensor S
  move_gps g =
      let (r1, s1) = rand.float64 g.rng in
      let (r2, s2) = rand.float64 s1 in
      let (r3, s3) = rand.float64 s2 in
      let (r4, s4) = rand.float64 s3 in
      let (r5, s5) = rand.float64 s4 in
      record g {
        sequence = add64 g.sequence 1;
        lat = clamp (negsuc 89) (pos 90) (around g.lat r1 thousandth);
        lon = clamp (negsuc 179) (pos 180) (around g.lon r2 thousandth);
        alt = max_float (whole (pos 0)) (around g.alt r3 (whole (pos 10)));
        speed = clamp (pos 0) (pos 150) (around g.speed r4 (whole (pos 5)));
        heading = mod_whole (around g.heading r5 (whole (pos 10))) 360;
        rng = s5;
      }

  unfoldable pub move_drone : DroneSensor S → DroneSensor S
  unfolding ◌+ℤ◌
  move_drone g =
      let (r1, s1) = rand.float64 g.rng in
      let (r2, s2) = rand.float64 s1 in
      let (r3, s3) = rand.float64 s2 in
      let (r4, s4) = rand.float64 s3 in
      let (n5, s5) = rand.intn 50 s4 in
      record g {
        sequence = add64 g.sequence 1;
        lat = clamp (negsuc 89) (pos 90) (around g.lat r1 two_thousandths);
        lon = clamp (negsuc 179) (pos 180) (around g.lon r2 two_thousandths);
        alt = clamp (pos 0) (pos 500) (around g.alt r3 (whole (pos 15)));
        battery = to_int (
            max_float (whole (pos 0)) (sub_float (whole g.battery) (mul_float r4 (whole (pos 2)))));
        signal = pos 50 +ℤ n5;
        rng = s5;
      }

  unfoldable pub move_vehicle : VehicleSensor S → VehicleSensor S
  move_vehicle g =
      let (r1, s1) = rand.float64 g.rng in
      let (r2, s2) = rand.float64 s1 in
      let (r3, s3) = rand.float64 s2 in
      let (r4, s4) = rand.float64 s3 in
      let speed' = clamp (pos 0) (pos 120) (around g.speed r3 (whole (pos 20))) in
      record g {
        sequence = add64 g.sequence 1;
        lat = clamp (negsuc 89) (pos 90) (around g.lat r1 thousandth);
        lon = clamp (negsuc 179) (pos 180) (around g.lon r2 thousandth);
        speed = speed';
        fuel = max_float (whole (pos 0)) (sub_float g.fuel (mul_float r4 tenth));
        mileage = add_float g.mileage (div_whole speed' 10);
        rng = s4;
      }

  unfoldable pub move_temperature : TemperatureSensor S → TemperatureSensor S
  move_temperature g =
      let (r1, s1) = rand.float64 g.rng in
      let (r2, s2) = rand.float64 s1 in
      record g {
        sequence = add64 g.sequence 1;
        temp = clamp (pos 0) (pos 50) (around g.temp r1 half);
        humidity = clamp (pos 0) (pos 100) (around g.humidity r2 (whole (pos 2)));
        rng = s2;
      }
