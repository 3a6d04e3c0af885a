-- ===== src/Metrics/Percentiles.antt =====
-- The summary that `Snapshot` computes.
use mathlib.Core.List.{Perm}
use Prim.Native.Nat.{min}
use sentinelstream.Prelude.{
  ℕ, zero, suc, pos, ◌-◌, ◌≤◌, ◌<◌, ◌≡◌, refl, ◌∙◌, ap, some, List, ℤ, ◌≤ℤ◌, length, get_elem?,
  arith, get_elem?_total,
}
use sentinelstream.Clock.{Duration}
use sentinelstream.Metrics.Rounding.{precision, scaled_index, scaled_index-le, scaled_index_mono}
use sentinelstream.Metrics.Sort.{sort, sort-IsSorted, length-sort, IsSorted-get, sort-perm}
use sentinelstream.Metrics.Latency.{
  LatencyRecorder, Snapshot, half, ninety_five, ninety_nine, summarise, snapshot, held,
  new_latency_recorder,
}
use sentinelstream.Metrics.History.{record_all, record_all-Holds, room, length-held}

-- The value is among the samples.
abbrev pub IsAmong : Duration → List Duration → Type 0
IsAmong d l = (i : ℕ) × (get_elem? l i ≡ some d)

-- A summary of sorted samples.
pub record IsSummary (sorted : List Duration) (s : Snapshot) : Type 0 where
  pub counted : s.count ≡ length sorted
  pub least : get_elem? sorted 0 ≡ some s.min
  pub greatest : get_elem? sorted (length sorted - 1) ≡ some s.max
  pub median : IsAmong s.p50 sorted
  pub upper : IsAmong s.p95 sorted
  pub top : IsAmong s.p99 sorted
  pub ordered : (s.min ≤ℤ s.p50) × (s.p50 ≤ℤ s.p95) × (s.p95 ≤ℤ s.p99) × (s.p99 ≤ℤ s.max)

-- Where each value of the summary stands.
abbrev place_of : ℕ → ℕ → ℕ
place_of p n = scaled_index p (n - 1)

module _ (items : List Duration) (n : ℕ) (e : length items ≡ n) (h : 0 < n) where
  in_range : (i : ℕ) → i ≤ n - 1 → (d : Duration) × (get_elem? (sort items) i ≡ some d)
  in_range i le = get_elem?_total (sort items) i (omega (arith, length-sort items))

  at_percentile :
      (p : ℕ) → p ≤ precision → (d : Duration) × (get_elem? (sort items) (place_of p n) ≡ some d)
  at_percentile p le = in_range (place_of p n) (scaled_index-le p (n - 1) le)

  in_order :
      (i j : ℕ) (a b : Duration)
      → i ≤ j
      → get_elem? (sort items) i ≡ some a
      → get_elem? (sort items) j ≡ some b
      → a ≤ℤ b
  in_order i j a b = IsSorted-get (sort items) i j a b (sort-IsSorted items)

  -- On one sample or more no index is out of range, and the percentiles are samples in order.
  summarise-IsSummary : (s : Snapshot) × (summarise n items ≡ some s) × IsSummary (sort items) s
  unfolding summarise
  summarise-IsSummary =
      let (least, at_least) = in_range 0 (omega arith) in
      let (p50, at_p50) = at_percentile half (omega arith) in
      let (p95, at_p95) = at_percentile ninety_five (omega arith) in
      let (p99, at_p99) = at_percentile ninety_nine (omega arith) in
      let (greatest, at_greatest) = in_range (n - 1) (omega arith) in
      (
        record { count = n; min = least; p50 = p50; p95 = p95; p99 = p99; max = greatest },
        ground (arith, at_least, at_p50, at_p95, at_p99, at_greatest),
        record {
          counted = omega (arith, length-sort items);
          least = at_least;
          greatest = ap (λ k. get_elem? (sort items) (k - 1)) (length-sort items ∙ e) ∙ at_greatest;
          median = (place_of half n, at_p50);
          upper = (place_of ninety_five n, at_p95);
          top = (place_of ninety_nine n, at_p99);
          ordered = (
            in_order 0 (place_of half n) least p50 (omega arith) at_least at_p50,
            in_order (place_of half n) (place_of ninety_five n) p50 p95
                (scaled_index_mono half ninety_five (n - 1) (omega arith)) at_p50 at_p95,
            in_order (place_of ninety_five n) (place_of ninety_nine n) p95 p99
                (scaled_index_mono ninety_five ninety_nine (n - 1) (omega arith)) at_p95 at_p99,
            in_order (place_of ninety_nine n) (n - 1) p99 greatest
                (scaled_index-le ninety_nine (n - 1) (omega arith)) at_p99 at_greatest,
          );
        },
      )

-- After one sample or more, `Snapshot` does not panic; it counts the samples held, as many as
-- were recorded and fit; minimum, percentiles and maximum are held samples in ascending order, the
-- first and the last of them sorted.
pub snapshot-IsSummary :
    (capacity : ℤ) (ds : List Duration)
    → 0 < length ds
    → (r : LatencyRecorder) × (record_all ds (new_latency_recorder capacity) ≡ some r)
      × (s : Snapshot) × (snapshot r ≡ some s)
      × (s.count ≡ min (length ds) (room capacity))
      × (Perm (sort (held r)) (held r))
      × IsSummary (sort (held r)) s
unfolding snapshot
snapshot-IsSummary capacity ds h =
    let (r, e, w) = record_all-Holds capacity ds in
    let size = length-held (room capacity) ds r w in
    let some_held : 0 < length (held r) = omega (arith, w.valid.in_range, w.sized) in
    let (s, computed, summary) = summarise-IsSummary (held r) (length (held r)) refl some_held in
    (
      r,
      e,
      s,
      computed,
      omega (arith, summary.counted, length-sort (held r)),
      sort-perm (held r),
      summary,
    )

summarise_total :
    (n : ℕ) (items : List Duration)
    → length items ≡ n
    → (s : Snapshot) × (summarise n items ≡ some s)
unfolding summarise
summarise_total zero items e =
    (record { count = 0; min = pos 0; p50 = pos 0; p95 = pos 0; p99 = pos 0; max = pos 0 }, refl)
summarise_total (suc n) items e =
    let (s, computed, v) = summarise-IsSummary items (suc n) e (omega arith) in (s, computed)

-- `Snapshot` panics on no recorder.
pub snapshot_total : (r : LatencyRecorder) → (s : Snapshot) × (snapshot r ≡ some s)
unfolding snapshot
snapshot_total r = summarise_total (length (held r)) (held r) refl
