-- ===== src/Clock.antt =====
-- Go's `time` package, as far as the program uses it: instants and durations in nanoseconds.
-- An instant is counted from Go's zero `Time`, so the zero `Time` is `pos 0`.
use sentinelstream.Prelude.{
  ◌-◌, ◌^◌, Bool, ◌&&◌, arith, if◌then◌else◌, ℤ, pos, negsuc, ◌+ℤ◌, ◌-ℤ◌, ◌≤ℤ◌, ltb_ℤ, leb_ℤ,
  -ℤ_parts,
}

abbrev pub Time : Type 0
Time = ℤ

-- A `Duration` is an `int64`.
abbrev pub Duration : Type 0
Duration = ℤ

abbrev pub second : Duration
second = pos 1000000000

abbrev pub minute : Duration
minute = pos 60000000000

abbrev pub max_duration : Duration
max_duration = pos (2 ^ 63 - 1)

abbrev pub min_duration : Duration
min_duration = negsuc (2 ^ 63 - 1)

-- `t.IsZero()`
abbrev pub is_zero : Time → Bool
is_zero t = leb_ℤ t (pos 0) && leb_ℤ (pos 0) t

-- `t.After(u)`
abbrev pub is_after : Time → Time → Bool
is_after t u = ltb_ℤ u t

-- `t.Add(d)`
unfoldable pub add_duration : Time → Duration → Time
unfolding ◌+ℤ◌
add_duration t d = t +ℤ d

-- `t.Sub(u)`, which stops at the ends of the `int64` range.
unfoldable pub elapsed : Time → Time → Duration
unfolding ◌-ℤ◌
elapsed t u =
    let d = t -ℤ u in
    if ltb_ℤ max_duration d then max_duration else if ltb_ℤ d min_duration then min_duration else d

-- Time that passes makes an elapsed time no shorter.
pub elapsed_mono : (t t' u : Time) → t ≤ℤ t' → elapsed t u ≤ℤ elapsed t' u
unfolding elapsed
elapsed_mono t t' u h = ground (arith, -ℤ_parts t u, -ℤ_parts t' u)
