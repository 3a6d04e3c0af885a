-- ===== src/Metrics/History.antt =====
-- A recorder holds the samples recorded last, as many as it has room for.
use mathlib.Core.List.{reverse, reverse-append, reverse-cons}
use sentinelstream.Prelude.{
  ℕ, zero, suc, ◌≤◌, ◌<◌, ◌≡◌, refl, ◌∙◌, ap, sym, true, false, ◌⊎◌, Option, some, List, [], ◌∷◌,
  ◌++◌, if◌then◌else◌, leb_ℤ, ℤ, pos, pos_part, length, take, drop, arith, length-replicate,
  take_all, take-suc_last, Bool-cases, inl, inr, length-take,
}
use Prim.Native.Nat.{min}
use sentinelstream.Prelude.Panic.{◌>>=◌}
use sentinelstream.Clock.{Duration}
use sentinelstream.Metrics.Latency.{
  LatencyRecorder, new_latency_recorder, record_sample, held, default_capacity,
}
use sentinelstream.Metrics.Ring.{
  IsValid, chronological, recorded, record_sample-recorded, recorded-IsValid, length-recorded,
  chronological-recorded,
}

-- The recorder after the samples, the newest first in the list.
unfoldable pub record_all : List Duration → LatencyRecorder → Option LatencyRecorder
record_all [] r = some r
record_all (d ∷ ds) r = record_all ds r >>= record_sample d

-- The room that `NewLatencyRecorder` makes.
abbrev pub room : ℤ → ℕ
room capacity = if leb_ℤ capacity (pos 0) then default_capacity else pos_part capacity

-- What holds of a recorder of the given size after the samples.
pub record Holds (size : ℕ) (ds : List Duration) (r : LatencyRecorder) : Type 0 where
  pub valid : IsValid r
  pub sized : length r.samples ≡ size
  pub filling : r.full ≡ false → length ds ≡ r.next
  pub filled : r.full ≡ true → size ≤ length ds
  pub window : chronological r ≡ reverse (take size ds)

pub new-IsValid : (capacity : ℤ) → IsValid (new_latency_recorder capacity)
unfolding new_latency_recorder
new-IsValid capacity = record {
  in_range = ground (arith, length-replicate (room capacity) (pos 0));
}

new-Holds : (capacity : ℤ) → Holds (room capacity) [] (new_latency_recorder capacity)
unfolding new_latency_recorder chronological
new-Holds capacity = record {
  valid = new-IsValid capacity;
  sized = length-replicate (room capacity) (pos 0);
  filling = λ e. refl;
  filled = λ e. cc;
  window = sym (ap reverse (take_all (room capacity) [] (omega arith)));
}

-- A window that is not full grows; a full one drops its oldest sample.
window_grows :
    (size : ℕ) (d : Duration) (ds : List Duration)
    → length ds < size
    → reverse (take size ds) ++ d ∷ [] ≡ reverse (take size (d ∷ ds))
window_grows (suc n) d ds h =
    rw (take_all (suc n) ds (omega arith), take_all n ds (omega arith)) (sym (reverse-cons d ds))
window_grows zero d ds h = elim h [ ]

window_moves :
    (size : ℕ) (d : Duration) (ds : List Duration)
    → 0 < size
    → size ≤ length ds
    → drop 1 (reverse (take size ds)) ++ d ∷ [] ≡ reverse (take size (d ∷ ds))
window_moves (suc n) d ds h le =
    let (x, e) = take-suc_last n ds le in
    rw (e, reverse-append (take n ds) (x ∷ [])) (sym (reverse-cons d (take n ds)))
window_moves zero d ds h le = elim h [ ]

recorded-Holds :
    (size : ℕ) (d : Duration) (ds : List Duration) (r : LatencyRecorder)
    → Holds size ds r
    → Holds size (d ∷ ds) (recorded d r)
recorded-Holds size d ds r w = record {
  valid = recorded-IsValid d r w.valid;
  sized = length-recorded d r ∙ w.sized;
  filling = λ e. unfold recorded in ground (arith, w.filling);
  filled = λ e. unfold recorded in ground (arith, w.filling, w.filled);
  window = chronological-recorded d r w.valid ∙ moved (Bool-cases r.full);
}
  where
    moved :
        (r.full ≡ true) ⊎ (r.full ≡ false)
        → (if r.full then drop 1 (chronological r) ++ d ∷ [] else chronological r ++ d ∷ [])
          ≡ reverse (take size (d ∷ ds))
    moved (inl e) =
        rw (w.window, e)
          (window_moves size d ds (omega (arith, w.sized, w.valid.in_range)) (w.filled e))
    moved (inr e) =
        rw (w.window, e)
          (window_grows size d ds (omega (arith, w.sized, w.valid.in_range, w.filling e)))

-- A recorder never panics, and after any samples it holds those recorded last, oldest first, as
-- many as the capacity given to `NewLatencyRecorder` (10000, if that is not positive).
pub record_all-Holds :
    (capacity : ℤ) (ds : List Duration)
    → (r : LatencyRecorder) × (record_all ds (new_latency_recorder capacity) ≡ some r)
      × Holds (room capacity) ds r
unfolding record_all
record_all-Holds capacity [] = (new_latency_recorder capacity, refl, new-Holds capacity)
record_all-Holds capacity (d ∷ ds) =
    let (r, e, w) = record_all-Holds capacity ds in
    (
      recorded d r,
      rw e (record_sample-recorded d r w.valid),
      recorded-Holds (room capacity) d ds r w,
    )

pub length-held :
    (size : ℕ) (ds : List Duration) (r : LatencyRecorder)
    → Holds size ds r
    → length (held r) ≡ min (length ds) size
unfolding held
length-held size ds r w = elim (Bool-cases r.full) [
  | inl e ↦ rw e (omega (arith, length-take (length r.samples) r.samples, w.sized, w.filled e))
  | inr e ↦
      rw e (omega (arith, length-take r.next r.samples, w.sized, w.filling e, w.valid.in_range))
]
