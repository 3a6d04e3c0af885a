-- ===== src/Float.antt =====
-- Go's `float64`, as far as the program compares it. Every finite float64 is a whole multiple of
-- 2^-1074, the least positive one, so `finite k` stands for k * 2^-1074 and comparisons are exact.
pub mod Arith
pub mod Bounds
pub mod Quotients
pub mod Exact
use sentinelstream.Prelude.{
  ℕ, ◌*◌, ◌^◌, ◌<◌, ◌≡◌, ◌⊎◌, ◌↔◌, inl, refl, ◌||◌, Bool, true, false, arith, ℤ, pos_part, neg_part,
  sub_ℕ, ◌≤ℤ◌, ◌<ℤ◌, ltb_ℤ, leb_ℤ,
}

pub data Float64 : Type 0 where
  nan : Float64
  neg_inf : Float64
  pos_inf : Float64
  finite : ℤ → Float64

-- How many steps of 2^-1074 make 1.
pub units : ℕ
units = 2 ^ 1074

pub units_pos : 0 < units
unfolding units
units_pos = omega arith

unfoldable pub scale : ℤ → ℤ
scale z = sub_ℕ (pos_part z * units) (neg_part z * units)

-- A Go constant, such as -90, where a float64 is expected.
abbrev pub whole : ℤ → Float64
whole z = finite (scale z)

-- `x < y`; false if either is NaN.
abbrev pub ltb_float : Float64 → Float64 → Bool
ltb_float nan y = false
ltb_float neg_inf nan = false
ltb_float neg_inf neg_inf = false
ltb_float neg_inf pos_inf = true
ltb_float neg_inf (finite k) = true
ltb_float pos_inf y = false
ltb_float (finite j) nan = false
ltb_float (finite j) neg_inf = false
ltb_float (finite j) pos_inf = true
ltb_float (finite j) (finite k) = ltb_ℤ j k

-- `x <= y`; false if either is NaN.
abbrev pub leb_float : Float64 → Float64 → Bool
leb_float nan y = false
leb_float neg_inf nan = false
leb_float neg_inf neg_inf = true
leb_float neg_inf pos_inf = true
leb_float neg_inf (finite k) = true
leb_float pos_inf nan = false
leb_float pos_inf neg_inf = false
leb_float pos_inf pos_inf = true
leb_float pos_inf (finite k) = false
leb_float (finite j) nan = false
leb_float (finite j) neg_inf = false
leb_float (finite j) pos_inf = true
leb_float (finite j) (finite k) = leb_ℤ j k

-- The value of a finite number, between whole bounds; NaN and the infinities lie in no range.
abbrev pub Between : ℤ → ℤ → Float64 → Type 0
Between lo hi nan = ⊥
Between lo hi neg_inf = ⊥
Between lo hi pos_inf = ⊥
Between lo hi (finite k) = (scale lo ≤ℤ k) × (k ≤ℤ scale hi)

abbrev pub AtLeast : ℤ → Float64 → Type 0
AtLeast lo nan = ⊥
AtLeast lo neg_inf = ⊥
AtLeast lo pos_inf = Unit
AtLeast lo (finite k) = scale lo ≤ℤ k

abbrev pub MoreThan : ℤ → Float64 → Type 0
MoreThan lo nan = ⊥
MoreThan lo neg_inf = ⊥
MoreThan lo pos_inf = Unit
MoreThan lo (finite k) = scale lo <ℤ k

abbrev pub IsNan : Float64 → Type 0
IsNan nan = Unit
IsNan neg_inf = ⊥
IsNan pos_inf = ⊥
IsNan (finite k) = ⊥

-- The tests of the validators: what `x < lo || x > hi`, `x < lo` and `x <= lo` let through.
pub in_bounds_iff :
    (lo hi : ℤ) (x : Float64)
    → ((ltb_float x (whole lo) || ltb_float (whole hi) x) ≡ false) ↔ (IsNan x ⊎ Between lo hi x)
in_bounds_iff lo hi nan = (λ h. inl tt, λ h. refl)
in_bounds_iff lo hi neg_inf = ground arith
in_bounds_iff lo hi pos_inf = ground arith
in_bounds_iff lo hi (finite k) = ground arith

pub AtLeast-iff :
    (lo : ℤ) (x : Float64) → (ltb_float x (whole lo) ≡ false) ↔ (IsNan x ⊎ AtLeast lo x)
AtLeast-iff lo nan = (λ h. inl tt, λ h. refl)
AtLeast-iff lo neg_inf = ground arith
AtLeast-iff lo pos_inf = ground arith
AtLeast-iff lo (finite k) = ground arith

pub MoreThan-iff :
    (lo : ℤ) (x : Float64) → (leb_float x (whole lo) ≡ false) ↔ (IsNan x ⊎ MoreThan lo x)
MoreThan-iff lo nan = (λ h. inl tt, λ h. refl)
MoreThan-iff lo neg_inf = ground arith
MoreThan-iff lo pos_inf = ground arith
MoreThan-iff lo (finite k) = ground arith
