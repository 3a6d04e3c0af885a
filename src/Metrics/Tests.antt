-- ===== src/Metrics/Tests.antt =====
-- A recorder of three places that received four samples.
use mathlib.Core.List.{Perm}
use Prim.Native.Nat.{min}
use sentinelstream.Prelude.{◌≡◌, refl, true, some, List, [], ◌∷◌, pos, length, arith}
use sentinelstream.Clock.{Duration}
use sentinelstream.Metrics.Sort.{sort}
use sentinelstream.Metrics.Latency.{
  LatencyRecorder, Snapshot, new_latency_recorder, record_sample, held, snapshot,
}
use sentinelstream.Metrics.History.{record_all, Holds, room, record_all-Holds}
use sentinelstream.Metrics.Percentiles.{IsSummary, snapshot-IsSummary}

abbrev samples : List Duration
samples = pos 40 ∷ pos 10 ∷ pos 30 ∷ pos 20 ∷ []

abbrev recorder : LatencyRecorder
recorder = record { samples = pos 40 ∷ pos 30 ∷ pos 10 ∷ []; next = 1; full = true }

record_all_test : record_all samples (new_latency_recorder (pos 3)) ≡ some recorder
unfolding record_all record_sample new_latency_recorder
record_all_test = refl

record_all-Holds_example :
    (r : LatencyRecorder) × (record_all samples (new_latency_recorder (pos 3)) ≡ some r)
    × Holds (room (pos 3)) samples r
record_all-Holds_example = record_all-Holds (pos 3) samples

snapshot-IsSummary_example :
    (r : LatencyRecorder) × (record_all samples (new_latency_recorder (pos 3)) ≡ some r)
    × (s : Snapshot) × (snapshot r ≡ some s)
    × (s.count ≡ min (length samples) (room (pos 3)))
    × (Perm (sort (held r)) (held r))
    × IsSummary (sort (held r)) s
snapshot-IsSummary_example = snapshot-IsSummary (pos 3) samples (omega arith)
