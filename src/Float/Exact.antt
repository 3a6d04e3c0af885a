-- ===== src/Float/Exact.antt =====
-- Where rounding changes nothing: whole numbers below 2^53, and their products and quotients as far as
-- these are whole numbers below 2^53 again.
use sentinelstream.Prelude.{
  ℕ, zero, suc, ◌+◌, ◌*◌, ◌^◌, ◌≤◌, ◌<◌, ◌≡◌, refl, ◌∙◌, ap, subst, sym, arith, ltb, ltb→lt, lt→ltb,
  true, false, Bool-cases, inl, inr, pos,
}
use sentinelstream.Float.{finite, units, units_pos}
use sentinelstream.Float.Arith.{
  round_quotient, doublings, round_ratio, mul_float, div_float, of_whole,
}
use sentinelstream.Float.Quotients.{
  round_quotient_stop, round_quotient_double, regroup, regroup_unit, scale_le, round_quotient-le,
  units-lt, product_pos, once, twice, one_unit,
}
use sentinelstream.Metrics.Rounding.{precision, round_half_even, round_half_even_exact}

-- The unit u divides w, and a multiple of w is its own rounding to it.
stopped_exact :
    (d u q c w : ℕ)
    → 0 < u
    → 0 < q
    → u * 2 ^ d ≡ w
    → round_half_even (c * w * q) (u * q) * u ≡ c * w
stopped_exact d u q c w hu hq e =
    let times : ℕ = c * 2 ^ d in
    let covered : c * w * q ≡ times * (u * q) = rw (sym e) (regroup c u (2 ^ d) q) in
    let back : times * u ≡ c * w = rw (sym e) (regroup_unit c u (2 ^ d)) in
    ap (λ p. round_half_even p (u * q) * u) covered
    ∙ ap (λ n. n * u) (round_half_even_exact times (u * q) (product_pos u q hu hq))
    ∙ back

-- A quotient that is a multiple of w, a unit that the doubling can reach.
pub round_quotient_exact :
    (d f u q c w : ℕ)
    → 0 < u
    → 0 < q
    → d ≤ f
    → u * 2 ^ d ≡ w
    → c * w * q < w * q * precision
    → round_quotient f u (c * w * q) q ≡ c * w
unfolding round_quotient
round_quotient_exact zero f u q c w hu hq hd e small =
    let now : c * w * q < u * q * precision =
      subst (λ t. c * w * q < t * q * precision) (sym e ∙ once u) small in
    round_quotient_stop f u (c * w * q) q now ∙ stopped_exact 0 u q c w hu hq e
round_quotient_exact (suc d) zero u q c w hu hq hd e small = absurd (omega arith)
round_quotient_exact (suc d) (suc f) u q c w hu hq hd e small =
    elim (Bool-cases (ltb (c * w * q) (u * q * precision))) [
      | inl stop ↦
          round_quotient_stop (suc f) u (c * w * q) q (ltb→lt _ _ stop)
          ∙ stopped_exact (suc d) u q c w hu hq e
      | inr go ↦
          round_quotient_double f u (c * w * q) q go
          ∙ round_quotient_exact d f (2 * u) q c w (omega arith) hq (omega arith) (twice u d ∙ e)
              small
    ]

-- In units of 1.
pub whole_quotient :
    (n q : ℕ) → 0 < q → n < precision → round_quotient doublings 1 (n * units * q) q ≡ n * units
whole_quotient n q hq h =
    round_quotient_exact 1074 doublings 1 q n units (omega arith) hq (omega arith) one_unit
      (less n q hq h)
  where
    less : (n q : ℕ) → 0 < q → n < precision → n * units * q < units * q * precision
    less n q hq h = grind (arith, units_pos)

pub fits_float : (n : ℕ) → n < precision → ltb (n * units) (2 ^ 2098) ≡ true
unfolding units
fits_float n h = lt→ltb _ _ (omega arith)

round_ratio_whole :
    (p n q : ℕ)
    → 0 < q
    → n < precision
    → p ≡ n * units * q
    → round_ratio false p q ≡ finite (pos (n * units))
unfolding round_ratio
round_ratio_whole p n q hq h e = rw (e, whole_quotient n q hq h, fits_float n h) refl

pub of_whole_exact : (n : ℕ) → n < precision → of_whole n ≡ finite (pos (n * units))
unfolding of_whole
of_whole_exact n h = round_ratio_whole (n * units) n 1 (omega arith) h (omega arith)

pub mul_whole :
    (a b : ℕ)
    → a * b < precision
    → mul_float (finite (pos (a * units))) (finite (pos (b * units))) ≡ finite (pos (a * b * units))
unfolding mul_float
mul_whole a b h =
    round_ratio_whole ((a * units + 0) * (b * units + 0)) (a * b) units units_pos h
      (regroup_units a b units)
  where
    regroup_units : (a b u : ℕ) → (a * u + 0) * (b * u + 0) ≡ a * b * u * u
    regroup_units a b u = grind arith

add_zero : (n : ℕ) → n + 0 ≡ n
add_zero n = omega arith

-- Two whole numbers, the second one positive.
pub div_whole_whole :
    (a b : ℕ)
    → 0 < b
    → div_float (finite (pos (a * units))) (finite (pos (b * units)))
      ≡ round_ratio false (a * units * units) (b * units)
unfolding div_float
div_whole_whole a b h =
    ground (arith, product_pos b units h units_pos, add_zero (a * units), add_zero (b * units))

pub div_exact :
    (c b : ℕ)
    → 0 < b
    → c < precision
    → div_float (finite (pos (c * b * units))) (finite (pos (b * units))) ≡ finite (pos (c * units))
div_exact c b hb h =
    div_whole_whole (c * b) b hb
    ∙ round_ratio_whole (c * b * units * units) c (b * units) (product_pos b units hb units_pos) h
        (regroup_units c b units)
  where
    regroup_units : (c b u : ℕ) → c * b * u * u ≡ c * u * (b * u)
    regroup_units c b u = grind arith

-- A quotient that is at most a multiple of 2^-46, and at most 100, is rounded to no more.
abbrev pub fraction : ℕ
fraction = 2 ^ 1028

pub fraction-units : 2 ^ 46 * fraction ≡ units
unfolding units
fraction-units = refl

pub fraction_pos : 0 < fraction
fraction_pos = omega arith

-- What that asks of the exact quotient, for any unit and a fraction of it.
quotient-le : (a b c k f u : ℕ) → k * f ≡ u → k * a ≤ c * b → a * u * u ≤ c * f * (b * u)
quotient-le a b c k f u e h =
    let up : a * u * u ≡ k * a * (f * u) =
      subst (λ t. a * t * t ≡ k * a * (f * t)) e (left a k f) in
    let across : c * f * (b * u) ≡ c * b * (f * u) = grind arith in
    rw (up, across) (scale_le (k * a) (c * b) (f * u) h)
  where
    left : (a k f : ℕ) → a * (k * f) * (k * f) ≡ k * a * (f * (k * f))
    left a k f = grind arith

scale_lt : (c d n : ℕ) → c < d → 0 < n → c * n < d * n
scale_lt c d n h hn = grind arith

quotient-lt :
    (a b c f u : ℕ)
    → 0 < b
    → 0 < f
    → 0 < u
    → c < precision
    → a * u * u ≤ c * f * (b * u)
    → a * u * u < f * (b * u) * precision
quotient-lt a b c f u hb hf hu hc h =
    let n = f * (b * u) in
    let same : c * f * (b * u) ≡ c * n = grind arith in
    let strict : c * n < precision * n =
      scale_lt c precision n hc (product_pos f (b * u) hf (product_pos b u hb hu)) in
    omega (arith, same, strict, h)

unsigned :
    (p q : ℕ)
    → round_quotient doublings 1 p q < 2 ^ 2098
    → round_ratio false p q ≡ finite (pos (round_quotient doublings 1 p q))
unfolding round_ratio
unsigned p q h = rw (lt→ltb _ _ h) refl

pub div_upto :
    (a b c : ℕ)
    → 0 < b
    → c ≤ 100 * 2 ^ 46
    → 2 ^ 46 * a ≤ c * b
    → (m : ℕ) × (div_float (finite (pos (a * units))) (finite (pos (b * units))) ≡ finite (pos m))
      × (m ≤ c * fraction)
div_upto a b c hb hc h =
    let q = b * units in
    let le : a * units * units ≤ c * fraction * q =
      quotient-le a b c (2 ^ 46) fraction units fraction-units h in
    let small : a * units * units < fraction * q * precision =
      quotient-lt a b c fraction units hb fraction_pos units_pos (omega arith) le in
    let m = round_quotient doublings 1 (a * units * units) q in
    let bound : m ≤ c * fraction =
      round_quotient-le 1028 doublings 1 (a * units * units) q c fraction (omega arith)
        (product_pos b units hb units_pos) (omega arith) refl small le in
    (
      m,
      div_whole_whole a b hb
          ∙ unsigned (a * units * units) q
              (omega (arith, units-lt, scale_le c (100 * 2 ^ 46) fraction hc, fraction-units)),
      bound,
    )
