-- ===== src/Float/Arith.antt =====
-- Go's arithmetic on `float64`: each operation gives the exact result rounded to 53 significant
-- bits, ties to even, or an infinity where that is too large; no two operations are fused. One zero
-- stands for both of Go's.
use sentinelstream.Prelude.{
  ℕ, zero, suc, ◌+◌, ◌-◌, ◌*◌, ◌/◌, ◌%◌, ◌^◌, ◌==◌, Bool, true, false, not, if◌then◌else◌, ltb, ℤ,
  pos, negsuc, pos_part, neg_part, sub_ℕ, ◌+ℤ◌,
}
use sentinelstream.Float.{Float64, nan, neg_inf, pos_inf, finite, units, ltb_float}
use sentinelstream.Metrics.Rounding.{precision, round_half_even}

-- p / q, rounded to 53 significant bits, from the unit u on; the unit doubles while 53 bits are too
-- few. A finite float64 needs at most 2045 doublings.
unfoldable pub round_quotient : ℕ → ℕ → ℕ → ℕ → ℕ
round_quotient zero u p q = round_half_even p (u * q) * u
round_quotient (suc f) u p q = elim (ltb p (u * q * precision)) [
  | true ↦ round_half_even p (u * q) * u
  | false ↦ round_quotient f (2 * u) p q
]

abbrev pub doublings : ℕ
doublings = 2046

-- The magnitude as a float64: from 2^1024 on it is an infinity.
abbrev pub signed : Bool → ℕ → Float64
signed negative m =
    if ltb m (2 ^ 2098)
    then (if negative then finite (sub_ℕ 0 m) else finite (pos m))
    else (if negative then neg_inf else pos_inf)

-- The float64 of p / q steps of 2^-1074, with a sign.
unfoldable pub round_ratio : Bool → ℕ → ℕ → Float64
round_ratio negative p q = signed negative (round_quotient doublings 1 p q)

abbrev pub is_negative : ℤ → Bool
is_negative z = ltb 0 (neg_part z)

abbrev pub magnitude : ℤ → ℕ
magnitude z = pos_part z + neg_part z

-- The magnitude is even below 0 and odd from there on: two signs differ.
abbrev pub differ : Bool → Bool → Bool
differ true b = not b
differ false b = b

unfoldable pub negate_float : Float64 → Float64
negate_float nan = nan
negate_float neg_inf = pos_inf
negate_float pos_inf = neg_inf
negate_float (finite k) = finite (sub_ℕ (neg_part k) (pos_part k))

-- `x + y`
unfoldable pub add_float : Float64 → Float64 → Float64
unfolding round_ratio
add_float nan y = nan
add_float neg_inf nan = nan
add_float neg_inf neg_inf = neg_inf
add_float neg_inf pos_inf = nan
add_float neg_inf (finite k) = neg_inf
add_float pos_inf nan = nan
add_float pos_inf neg_inf = nan
add_float pos_inf pos_inf = pos_inf
add_float pos_inf (finite k) = pos_inf
add_float (finite j) nan = nan
add_float (finite j) neg_inf = neg_inf
add_float (finite j) pos_inf = pos_inf
add_float (finite j) (finite k) = round_ratio (is_negative (j +ℤ k)) (magnitude (j +ℤ k)) 1

-- `x - y`
unfoldable pub sub_float : Float64 → Float64 → Float64
unfolding add_float negate_float
sub_float x y = add_float x (negate_float y)

-- An infinity times a finite number.
abbrev pub scaled_inf : Bool → ℤ → Float64
scaled_inf negative k =
    if magnitude k == 0 then nan else (if differ negative (is_negative k) then neg_inf else pos_inf)

-- `x * y`
unfoldable pub mul_float : Float64 → Float64 → Float64
unfolding round_ratio
mul_float nan y = nan
mul_float neg_inf nan = nan
mul_float neg_inf neg_inf = pos_inf
mul_float neg_inf pos_inf = neg_inf
mul_float neg_inf (finite k) = scaled_inf true k
mul_float pos_inf nan = nan
mul_float pos_inf neg_inf = neg_inf
mul_float pos_inf pos_inf = pos_inf
mul_float pos_inf (finite k) = scaled_inf false k
mul_float (finite j) nan = nan
mul_float (finite j) neg_inf = scaled_inf true j
mul_float (finite j) pos_inf = scaled_inf false j
mul_float (finite j) (finite k) =
    round_ratio (differ (is_negative j) (is_negative k)) (magnitude j * magnitude k) units

-- `x / d` for a whole constant `d` that is positive.
unfoldable pub div_whole : Float64 → ℕ → Float64
unfolding round_ratio
div_whole nan d = nan
div_whole neg_inf d = neg_inf
div_whole pos_inf d = pos_inf
div_whole (finite k) d = round_ratio (is_negative k) (magnitude k) d

-- `x / y`; a number divided by 0 is an infinity, and NaN if it is 0 itself.
unfoldable pub div_float : Float64 → Float64 → Float64
unfolding round_ratio
div_float nan y = nan
div_float neg_inf nan = nan
div_float neg_inf neg_inf = nan
div_float neg_inf pos_inf = nan
div_float neg_inf (finite k) = if is_negative k then pos_inf else neg_inf
div_float pos_inf nan = nan
div_float pos_inf neg_inf = nan
div_float pos_inf pos_inf = nan
div_float pos_inf (finite k) = if is_negative k then neg_inf else pos_inf
div_float (finite j) nan = nan
div_float (finite j) neg_inf = finite (pos 0)
div_float (finite j) pos_inf = finite (pos 0)
div_float (finite j) (finite k) =
    if magnitude k == 0
    then (if magnitude j == 0 then nan else (if is_negative j then neg_inf else pos_inf))
    else round_ratio (differ (is_negative j) (is_negative k)) (magnitude j * units) (magnitude k)

-- `float64(n)` for a whole number that is not negative.
unfoldable pub of_whole : ℕ → Float64
unfolding round_ratio
of_whole n = round_ratio false (n * units) 1

-- `math.Max` and `math.Min`
unfoldable pub max_float : Float64 → Float64 → Float64
max_float pos_inf y = pos_inf
max_float nan pos_inf = pos_inf
max_float nan y = nan
max_float neg_inf y = y
max_float (finite j) nan = nan
max_float (finite j) neg_inf = finite j
max_float (finite j) pos_inf = pos_inf
max_float (finite j) (finite k) = if ltb_float (finite k) (finite j) then finite j else finite k

unfoldable pub min_float : Float64 → Float64 → Float64
min_float neg_inf y = neg_inf
min_float nan neg_inf = neg_inf
min_float nan y = nan
min_float pos_inf y = y
min_float (finite j) nan = nan
min_float (finite j) neg_inf = neg_inf
min_float (finite j) pos_inf = finite j
min_float (finite j) (finite k) = if ltb_float (finite j) (finite k) then finite j else finite k

-- `math.Mod(x, d)` for a whole constant `d` that is positive: it has the sign of `x`.
unfoldable pub mod_whole : Float64 → ℕ → Float64
mod_whole nan d = nan
mod_whole neg_inf d = nan
mod_whole pos_inf d = nan
mod_whole (finite k) d =
    let m = magnitude k % (d * units) in
    if is_negative k then finite (sub_ℕ 0 m) else finite (pos m)

-- `int(x)`: the fraction goes. Go leaves open what other values give; this is what amd64 does.
unfoldable pub to_int : Float64 → ℤ
to_int nan = negsuc (2 ^ 63 - 1)
to_int neg_inf = negsuc (2 ^ 63 - 1)
to_int pos_inf = negsuc (2 ^ 63 - 1)
to_int (finite k) =
    if is_negative k then sub_ℕ 0 (magnitude k / units) else pos (magnitude k / units)

-- The constant m / 2^e, for e up to 1074.
unfoldable pub dyadic : ℕ → ℕ → Float64
dyadic m e = finite (pos (m * 2 ^ (1074 - e)))
