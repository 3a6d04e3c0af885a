-- ===== src/Float/Bounds.antt =====
-- Bounds of computed floats.
use sentinelstream.Prelude.{
  ℕ, suc, true, ◌*◌, ◌^◌, ◌≡◌, ap, arith, ltb, false, Bool-cases, inl, inr, ℤ, pos, negsuc,
  pos_part, neg_part, ◌+ℤ◌, +ℤ_parts, ◌<◌, ◌≤ℤ◌, ◌⊎◌,
}
use sentinelstream.Float.{
  ltb_float, Float64, nan, neg_inf, pos_inf, finite, units, units_pos, whole, scale, Between,
  AtLeast, IsNan,
}
use sentinelstream.Float.Arith.{
  dyadic, round_quotient, doublings, signed, round_ratio, magnitude, is_negative, add_float,
  mul_float, div_whole, max_float, min_float,
}

-- What the validators let through.
abbrev pub MayLie : ℤ → ℤ → Float64 → Type 0
MayLie lo hi x = IsNan x ⊎ Between lo hi x

abbrev pub MayReach : ℤ → Float64 → Type 0
MayReach lo x = IsNan x ⊎ AtLeast lo x

pub clamp-MayLie :
    (lo hi : ℤ) (x : Float64)
    → scale lo ≤ℤ scale hi
    → MayLie lo hi (max_float (whole lo) (min_float (whole hi) x))
unfolding max_float min_float
clamp-MayLie lo hi nan h = inl tt
clamp-MayLie lo hi neg_inf h = ground arith
clamp-MayLie lo hi pos_inf h = ground arith
clamp-MayLie lo hi (finite k) h = ground arith

pub floor-MayReach : (lo : ℤ) (x : Float64) → MayReach lo (max_float (whole lo) x)
unfolding max_float
floor-MayReach lo nan = inl tt
floor-MayReach lo neg_inf = ground arith
floor-MayReach lo pos_inf = ground arith
floor-MayReach lo (finite k) = ground arith

pub scale_zero : scale (pos 0) ≡ pos 0
unfolding scale
scale_zero = ground arith

signed-AtLeast : (m : ℕ) → AtLeast (pos 0) (signed false m)
signed-AtLeast m = elim (Bool-cases (ltb m (2 ^ 2098))) [
  | inl e ↦ rw e (ground (arith, ap pos_part scale_zero, ap neg_part scale_zero))
  | inr e ↦ rw e tt
]

pub scale_pos : (n : ℕ) → scale (pos n) ≡ pos (n * units)
unfolding scale
scale_pos n = ground arith

-- A quotient with no sign.
round_ratio-AtLeast : (p q : ℕ) → AtLeast (pos 0) (round_ratio false p q)
unfolding round_ratio
round_ratio-AtLeast p q = signed-AtLeast (round_quotient doublings 1 p q)

positive : (k : ℤ) → scale (pos 0) ≤ℤ k → is_negative k ≡ false
positive (pos n) h = ground arith
positive (negsuc n) h = absurd (omega (arith, ap pos_part scale_zero, ap neg_part scale_zero))

sum_positive : (i j : ℤ) → scale (pos 0) ≤ℤ i → scale (pos 0) ≤ℤ j → scale (pos 0) ≤ℤ (i +ℤ j)
sum_positive i j h k = omega (arith, +ℤ_parts i j, ap pos_part scale_zero, ap neg_part scale_zero)

pub add-MayReach :
    (x y : Float64) → MayReach (pos 0) x → MayReach (pos 0) y → MayReach (pos 0) (add_float x y)
unfolding add_float
add-MayReach nan y h k = inl tt
add-MayReach neg_inf y h k = absurd (ground arith)
add-MayReach pos_inf nan h k = inl tt
add-MayReach pos_inf neg_inf h k = absurd (ground arith)
add-MayReach pos_inf pos_inf h k = inr tt
add-MayReach pos_inf (finite j) h k = inr tt
add-MayReach (finite i) nan h k = inl tt
add-MayReach (finite i) neg_inf h k = absurd (ground arith)
add-MayReach (finite i) pos_inf h k = inr tt
add-MayReach (finite i) (finite j) (inl e) k = elim e [ ]
add-MayReach (finite i) (finite j) (inr h) (inl e) = elim e [ ]
add-MayReach (finite i) (finite j) (inr h) (inr k) =
    rw (positive (i +ℤ j) (sum_positive i j h k)) (inr (round_ratio-AtLeast (magnitude (i +ℤ j)) 1))

pub div-MayReach : (x : Float64) (d : ℕ) → MayReach (pos 0) x → MayReach (pos 0) (div_whole x d)
unfolding div_whole
div-MayReach nan d h = inl tt
div-MayReach neg_inf d h = absurd (ground arith)
div-MayReach pos_inf d h = inr tt
div-MayReach (finite k) d (inl e) = elim e [ ]
div-MayReach (finite k) d (inr h) = rw (positive k h) (inr (round_ratio-AtLeast (magnitude k) d))

some_units : (n : ℕ) → 0 < suc n * units
some_units n = grind (arith, units_pos)

-- Scaling by a positive constant.
pub mul-AtLeast :
    (x : Float64) (n : ℕ) → AtLeast (pos 0) x → AtLeast (pos 0) (mul_float x (whole (pos (suc n))))
unfolding mul_float units
mul-AtLeast nan n h = elim h [ ]
mul-AtLeast neg_inf n h = elim h [ ]
mul-AtLeast pos_inf n h = rw (scale_pos (suc n)) (ground (arith, some_units n))
mul-AtLeast (finite k) n h =
    rw (positive k h, scale_pos (suc n))
      (round_ratio-AtLeast (magnitude k * magnitude (pos (suc n * units))) units)

-- One half.
pub half_in_unit : AtLeast (pos 0) (dyadic 1 1) × (ltb_float (dyadic 1 1) (whole (pos 1)) ≡ true)
unfolding dyadic scale units
half_in_unit = ground arith
