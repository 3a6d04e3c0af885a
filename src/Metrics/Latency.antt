-- ===== src/Metrics/Latency.antt =====
-- internal/metrics/latency.go. `none` is a panic for an index out of range; a mutex makes each
-- method one step.
use sentinelstream.Prelude.{
  ℕ, ◌+◌, ◌-◌, Bool, true, false, Option, none, some, List, ltb, leb_ℤ, ◌==◌, if◌then◌else◌, ℤ, pos,
  pos_part, length, get_elem?, set, take, replicate,
}
use sentinelstream.Prelude.Panic.{◌>>=◌}
use sentinelstream.Clock.{Duration}
use sentinelstream.Metrics.Rounding.{scaled_index}
use sentinelstream.Metrics.Sort.{sort}

abbrev pub default_capacity : ℕ
default_capacity = 10000

pub record LatencyRecorder : Type 0 where
  pub samples : List Duration
  pub next : ℕ
  pub full : Bool

unfoldable pub new_latency_recorder : ℤ → LatencyRecorder
new_latency_recorder capacity =
    let size = if leb_ℤ capacity (pos 0) then default_capacity else pos_part capacity in
    record { samples = replicate size (pos 0); next = 0; full = false }

unfoldable pub record_sample : Duration → LatencyRecorder → Option LatencyRecorder
record_sample d r =
    if ltb r.next (length r.samples)
    then (let samples = set r.samples r.next d in
        if r.next + 1 == length samples
        then some (record { samples = samples; next = 0; full = true })
        else some (record { samples = samples; next = r.next + 1; full = r.full }))
    else none

-- `r.samples[:n]`
unfoldable pub held : LatencyRecorder → List Duration
held r = take (if r.full then length r.samples else r.next) r.samples

pub record Snapshot : Type 0 where
  pub count : ℕ
  pub min : Duration
  pub p50 : Duration
  pub p95 : Duration
  pub p99 : Duration
  pub max : Duration

-- The float64 constants 0.50, 0.95 and 0.99 times 2^53, which are whole.
abbrev pub half : ℕ
half = 4503599627370496

abbrev pub ninety_five : ℕ
ninety_five = 8556839292003942

abbrev pub ninety_nine : ℕ
ninety_nine = 8917127262193582

-- `data[int(p * float64(n-1))]`; n - 1 is below 2^53, so that it is a float64.
unfoldable pub percentile : ℕ → List Duration → ℕ → Option Duration
percentile p sorted n = get_elem? sorted (scaled_index p (n - 1))

-- The part of `Snapshot` behind the lock: `n` samples in `items`.
unfoldable pub summarise : ℕ → List Duration → Option Snapshot
unfolding percentile
summarise n items =
    if n == 0
    then some
        (record { count = 0; min = pos 0; p50 = pos 0; p95 = pos 0; p99 = pos 0; max = pos 0 })
    else (do
      let sorted = sort items
      least ← get_elem? sorted 0
      p50 ← percentile half sorted n
      p95 ← percentile ninety_five sorted n
      p99 ← percentile ninety_nine sorted n
      greatest ← get_elem? sorted (n - 1)
      some (record { count = n; min = least; p50 = p50; p95 = p95; p99 = p99; max = greatest }))

unfoldable pub snapshot : LatencyRecorder → Option Snapshot
unfolding held summarise
snapshot r = summarise (length (held r)) (held r)
