-- ===== src/Float/Quotients.antt =====
-- A quotient that is no more than a whole number is rounded to no more, and what that means for a
-- difference.
use sentinelstream.Prelude.{
  ℕ, zero, suc, ◌+◌, ◌*◌, ◌/◌, ◌^◌, ◌≤◌, ◌<◌, ◌≡◌, ◌∙◌, ap, subst, sym, arith, ltb, ltb→lt, lt→ltb,
  refl, true, false, Bool-cases, inl, inr, ℤ, pos, negsuc, pos_part, neg_part, sub_ℕ, ◌+ℤ◌, ◌≤ℤ◌,
}
use native.Mathlib.Nat.{pow-suc, div-le_of_le-mul}
use sentinelstream.Float.{
  Float64, nan, neg_inf, pos_inf, finite, units, units_pos, whole, scale, AtLeast,
}
use sentinelstream.Float.Arith.{
  round_quotient, doublings, signed, round_ratio, magnitude, is_negative, negate_float, add_float,
  sub_float, max_float, to_int,
}
use sentinelstream.Metrics.Rounding.{precision, round_half_even, round_half_even-le}
use sentinelstream.Float.Bounds.{scale_zero, scale_pos}

-- The doubling stops at the first unit that is large enough.
pub round_quotient_stop :
    (f u p q : ℕ) → p < u * q * precision → round_quotient f u p q ≡ round_half_even p (u * q) * u
unfolding round_quotient
round_quotient_stop zero u p q h = ground arith
round_quotient_stop (suc f) u p q h = ground arith

pub round_quotient_double :
    (f u p q : ℕ)
    → ltb p (u * q * precision) ≡ false
    → round_quotient (suc f) u p q ≡ round_quotient f (2 * u) p q
unfolding round_quotient
round_quotient_double f u p q h = ground arith

pub regroup : (c u t q : ℕ) → c * (u * t) * q ≡ c * t * (u * q)
regroup c u t q = grind arith

pub regroup_unit : (c u t : ℕ) → c * t * u ≡ c * (u * t)
regroup_unit c u t = grind arith

pub scale_le : (a b u : ℕ) → a ≤ b → a * u ≤ b * u
scale_le a b u h = grind arith

pub product_pos : (a b : ℕ) → 0 < a → 0 < b → 0 < a * b
product_pos zero b h k = elim h [ ]
product_pos (suc a) zero h k = elim k [ ]
product_pos (suc a) (suc b) h k = ground arith

pub once : (u : ℕ) → u * 2 ^ 0 ≡ u
once u = ground arith

pub twice : (u d : ℕ) → 2 * u * 2 ^ d ≡ u * 2 ^ suc d
twice u d = rw (pow-suc 2 d) (grind arith)

-- The unit u divides w, and rounding to it does not pass a multiple of w.
stopped-le :
    (d u p q c w : ℕ)
    → 0 < u
    → 0 < q
    → u * 2 ^ d ≡ w
    → p ≤ c * w * q
    → round_half_even p (u * q) * u ≤ c * w
stopped-le d u p q c w hu hq e h =
    let times : ℕ = c * 2 ^ d in
    let covered : c * w * q ≡ times * (u * q) = rw (sym e) (regroup c u (2 ^ d) q) in
    let bound : round_half_even p (u * q) ≤ times =
      round_half_even-le p (u * q) times (product_pos u q hu hq) (subst (λ t. p ≤ t) covered h) in
    let back : times * u ≡ c * w = rw (sym e) (regroup_unit c u (2 ^ d)) in
    subst (λ t. round_half_even p (u * q) * u ≤ t) back
      (scale_le (round_half_even p (u * q)) times u bound)

-- Rounding does not pass a multiple of w, a unit that the doubling can reach.
pub round_quotient-le :
    (d f u p q c w : ℕ)
    → 0 < u
    → 0 < q
    → d ≤ f
    → u * 2 ^ d ≡ w
    → p < w * q * precision
    → p ≤ c * w * q
    → round_quotient f u p q ≤ c * w
unfolding round_quotient
round_quotient-le zero f u p q c w hu hq hd e small h =
    let now : p < u * q * precision = subst (λ t. p < t * q * precision) (sym e ∙ once u) small in
    rw (round_quotient_stop f u p q now) (stopped-le 0 u p q c w hu hq e h)
round_quotient-le (suc d) zero u p q c w hu hq hd e small h = absurd (omega arith)
round_quotient-le (suc d) (suc f) u p q c w hu hq hd e small h =
    elim (Bool-cases (ltb p (u * q * precision))) [
      | inl stop ↦
          rw (round_quotient_stop (suc f) u p q (ltb→lt _ _ stop))
            (stopped-le (suc d) u p q c w hu hq e h)
      | inr go ↦ rw (round_quotient_double f u p q go) (
          round_quotient-le d f (2 * u) p q c w (omega arith) hq (omega arith) (twice u d ∙ e) small
            h)
    ]

pub one_unit : 1 * 2 ^ 1074 ≡ units
unfolding units
one_unit = refl

pub units-lt : 100 * units < 2 ^ 2098
unfolding units
units-lt = omega arith

-- A quotient by 1 that is at most a small whole number rounds to no more.
round_whole-le : (b p : ℕ) → b ≤ 100 → p ≤ b * units → round_quotient doublings 1 p 1 ≤ b * units
round_whole-le b p hb h =
    round_quotient-le 1074 doublings 1 p 1 b units (omega arith) (omega arith) (omega arith)
      one_unit (omega (arith, units_pos, scale_le b 100 units hb)) (omega arith)

-- At most a whole number, and not NaN.
abbrev pub AtMost : ℕ → Float64 → Type 0
AtMost b nan = ⊥
AtMost b neg_inf = Unit
AtMost b pos_inf = ⊥
AtMost b (finite k) = pos_part k ≤ b * units

signed_below : (b m : ℕ) → AtMost b (signed true m)
signed_below b m = elim (Bool-cases (ltb m (2 ^ 2098))) [
  | inl e ↦ rw e (ground arith)
  | inr e ↦ rw e tt
]

signed_above : (b m : ℕ) → b ≤ 100 → m ≤ b * units → AtMost b (signed false m)
signed_above b m hb h =
    let fits : ltb m (2 ^ 2098) ≡ true =
      lt→ltb _ _ (omega (arith, units-lt, scale_le b 100 units hb)) in
    rw fits h

round_ratio-AtMost :
    (b : ℕ) (z : ℤ)
    → b ≤ 100
    → pos_part z ≤ b * units
    → AtMost b (round_ratio (is_negative z) (magnitude z) 1)
unfolding round_ratio
round_ratio-AtMost b (pos n) hb h = signed_above b _ hb (round_whole-le b (n + 0) hb (omega arith))
round_ratio-AtMost b (negsuc n) hb h =
    rw (lt→ltb 0 (suc n) (omega arith)) (signed_below b (round_quotient doublings 1 (0 + suc n) 1))

difference-le :
    (b : ℕ) (k : ℤ)
    → scale (pos 0) ≤ℤ k
    → pos_part (scale (pos b) +ℤ sub_ℕ (neg_part k) (pos_part k)) ≤ b * units
unfolding ◌+ℤ◌
difference-le b k h =
    rw (scale_pos b) (ground (arith, ap pos_part scale_zero, ap neg_part scale_zero))

pub sub-AtMost :
    (b : ℕ) (x : Float64) → b ≤ 100 → AtLeast (pos 0) x → AtMost b (sub_float (whole (pos b)) x)
unfolding sub_float add_float negate_float
sub-AtMost b nan hb h = elim h [ ]
sub-AtMost b neg_inf hb h = elim h [ ]
sub-AtMost b pos_inf hb h = tt
sub-AtMost b (finite k) hb h =
    let difference = scale (pos b) +ℤ sub_ℕ (neg_part k) (pos_part k) in
    round_ratio-AtMost b difference hb (difference-le b k h)

raised : (n : ℕ) → max_float (finite (pos 0)) (finite (pos n)) ≡ finite (pos n)
unfolding max_float
raised n = ground arith

-- The whole part of such a number that is raised to 0.
pub floored-le :
    (b : ℕ) (y : Float64)
    → AtMost b y
    → (pos 0 ≤ℤ to_int (max_float (whole (pos 0)) y))
      × (to_int (max_float (whole (pos 0)) y) ≤ℤ pos b)
unfolding max_float to_int
floored-le b nan h = elim h [ ]
floored-le b neg_inf h = rw scale_zero (ground arith)
floored-le b pos_inf h = elim h [ ]
floored-le b (finite (pos n)) h =
    let covered : n + 0 ≤ units * b = grind arith in
    let fits : (n + 0) / units ≤ b = div-le_of_le-mul units covered in
    rw (scale_zero, raised n) (omega arith, omega arith)
floored-le b (finite (negsuc n)) h = rw scale_zero (ground arith)
