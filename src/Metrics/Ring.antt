-- ===== src/Metrics/Ring.antt =====
-- The circular buffer of a `LatencyRecorder`, against the list of all samples recorded.
use mathlib.Core.List.{append-nil, append_assoc}
use native.Mathlib.Numerals.{add-one}
use sentinelstream.Prelude.{
  ℕ, suc, ◌+◌, ◌<◌, ◌≡◌, ◌∙◌, ap, sym, Bool, true, false, some, List, [], ◌∷◌, ◌++◌, ◌==◌,
  if◌then◌else◌, length, set, take, drop, arith, length-set, length-drop, take-suc-set,
  drop-suc-set, drop-append, drop-one-drop, take-length_self, drop-length_self, Bool-cases, inl,
  inr,
}
use sentinelstream.Clock.{Duration}
use sentinelstream.Metrics.Latency.{LatencyRecorder, record_sample}

-- `samples` and `next` name the buffer; nothing is written out of range.
pub record IsValid (r : LatencyRecorder) : Type 0 where
  pub in_range : r.next < length r.samples

-- The samples held, oldest first.
unfoldable pub chronological : LatencyRecorder → List Duration
chronological r =
    if r.full then drop r.next r.samples ++ take r.next r.samples else take r.next r.samples

-- The recorder after a sample that is in range.
unfoldable pub recorded : Duration → LatencyRecorder → LatencyRecorder
recorded d r =
    if r.next + 1 == length r.samples
    then record { samples = set r.samples r.next d; next = 0; full = true }
    else record { samples = set r.samples r.next d; next = r.next + 1; full = r.full }

-- On a valid recorder, recording does not panic.
pub record_sample-recorded :
    (d : Duration) (r : LatencyRecorder) → IsValid r → record_sample d r ≡ some (recorded d r)
unfolding record_sample recorded
record_sample-recorded d r v = ground (arith, length-set r.samples r.next d)

pub recorded-IsValid : (d : Duration) (r : LatencyRecorder) → IsValid r → IsValid (recorded d r)
unfolding recorded
recorded-IsValid d r v = ground (arith, length-set r.samples r.next d)

pub length-recorded :
    (d : Duration) (r : LatencyRecorder) → length (recorded d r).samples ≡ length r.samples
unfolding recorded
length-recorded d r = ground (arith, length-set r.samples r.next d)

module _ {ℓ} {A : Type ℓ} (d : A) (xs : List A) (i : ℕ) (h : i < length xs) where
  -- The oldest element leaves a full buffer.
  turn : drop 1 (drop i xs ++ take i xs) ≡ drop (suc i) xs ++ take i xs
  turn =
      drop-append 1 (drop i xs) (take i xs) (omega (arith, length-drop i xs))
      ∙ ap (λ l. l ++ take i xs) (drop-one-drop i xs)

  filled : length xs ≡ suc i → set xs i d ≡ take i xs ++ d ∷ []
  filled e = sym (take-length_self (set xs i d)) ∙ rw (length-set xs i d, e) (take-suc-set xs i d h)

  emptied : length xs ≡ suc i → drop (suc i) xs ≡ []
  emptied e = rw (← e) (drop-length_self xs)

  -- The next view of the buffer, from the view before.
  abbrev pushed : Bool → List A → List A
  pushed f view = if f then drop 1 view ++ d ∷ [] else view ++ d ∷ []

  wraps :
      (f : Bool)
      → length xs ≡ suc i
      → set xs i d ++ [] ≡ pushed f (if f then drop i xs ++ take i xs else take i xs)
  wraps true e = rw (append-nil, filled e, turn, emptied e)
  wraps false e = rw (append-nil, filled e)

  goes_on :
      (f : Bool)
      → (if f
          then drop (suc i) (set xs i d) ++ take (suc i) (set xs i d)
          else take (suc i) (set xs i d))
        ≡ pushed f (if f then drop i xs ++ take i xs else take i xs)
  goes_on true =
      rw (drop-suc-set, take-suc-set xs i d h, turn)
        (sym (append_assoc (drop (suc i) xs) (take i xs) (d ∷ [])))
  goes_on false = take-suc-set xs i d h

-- A sample goes behind the others, and the oldest one goes if the buffer is full.
pub chronological-recorded :
    (d : Duration) (r : LatencyRecorder)
    → IsValid r
    → chronological (recorded d r)
      ≡ (if r.full then drop 1 (chronological r) ++ d ∷ [] else chronological r ++ d ∷ [])
unfolding recorded chronological
chronological-recorded d r v = elim (Bool-cases (r.next + 1 == length r.samples)) [
  | inl e ↦ rw (e, recorded) (wraps d r.samples r.next v.in_range r.full (ground arith))
  | inr e ↦ rw (e, recorded, add-one) (goes_on d r.samples r.next v.in_range r.full)
]
