-- ===== src/Metrics/Rounding.antt =====
-- The product of a float64 constant in (0, 1] and a whole number, as Go computes it: exactly, then
-- rounded to 53 significant bits, ties to even. A constant is m / 2^53; a whole number below 2^53
-- is a float64 itself.
use sentinelstream.Prelude.{
  ℕ, zero, suc, ◌+◌, ◌*◌, ◌/◌, ◌%◌, ◌^◌, ◌≤◌, ◌<◌, ◌≡◌, arith, ltb, if◌then◌else◌, Bool-cases, inl,
  inr, ap,
}
use native.Mathlib.Decide.{dec_lt}
use native.Mathlib.Nat.{
  pow-suc, le_trans, div-mul-le_self, le-div_iff_mul-le, div-add-mod, div-add-mod',
  div-le_of_le-mul, mul-div_cancel,
}

-- 2^53
abbrev pub precision : ℕ
precision = 9007199254740992

-- p / u, rounded to a whole number, ties to even.
pub round_half_even : ℕ → ℕ → ℕ
round_half_even p u =
    let q = p / u in
    let twice = 2 * (p % u) in if ltb twice u then q else if ltb u twice then q + 1 else q + q % 2

-- p rounded to 53 significant bits, from the unit u on; the unit doubles while 53 bits are too few.
pub round_from : ℕ → ℕ → ℕ → ℕ
unfolding round_half_even
round_from zero u p = round_half_even p u * u
round_from (suc f) u p =
    let wider = round_from f (2 * u) p in
    if ltb p (u * precision) then round_half_even p u * u else wider

-- `int(p * float64(k))` for the constant p = m / 2^53. The unit 2^53 is enough for k < 2^53.
unfoldable pub scaled_index : ℕ → ℕ → ℕ
unfolding round_from
scaled_index m k = round_from 53 1 (m * k) / precision

-- The same, on quotient and rest.
abbrev tie : ℕ → ℕ → ℕ → ℕ
tie q r u = if ltb (2 * r) u then q else if ltb u (2 * r) then q + 1 else q + q % 2

tie-le_suc : (q r u : ℕ) → tie q r u ≤ q + 1
tie-le_suc q r u = ground arith

tie-ge : (q r u : ℕ) → q ≤ tie q r u
tie-ge q r u = ground arith

tie_mono : (q r r' u : ℕ) → r ≤ r' → tie q r u ≤ tie q r' u
tie_mono q r r' u h = ground arith

quotient_mono : (p p' u : ℕ) → 0 < u → p ≤ p' → p / u ≤ p' / u
quotient_mono p p' u h le = (le-div_iff_mul-le h).1 (le_trans (div-mul-le_self p u) le)

round_half_even_mono : (p p' u : ℕ) → 0 < u → p ≤ p' → round_half_even p u ≤ round_half_even p' u
unfolding round_half_even
round_half_even_mono p p' u h le = elim (dec_lt (p / u) (p' / u)) [
  | yes less ↦ omega (arith, tie-le_suc (p / u) (p % u) u, tie-ge (p' / u) (p' % u) u)
  | no same ↦
      let e : p / u ≡ p' / u = omega (arith, quotient_mono p p' u h le) in
      let rest : p % u ≤ p' % u =
        omega (arith, div-add-mod p u, div-add-mod p' u, ap (λ (t : ℕ). u * t) e) in
      rw e (tie_mono (p' / u) (p % u) (p' % u) u rest)
]

-- A multiple of the unit is its own rounding.
pub round_half_even_exact : (c u : ℕ) → 0 < u → round_half_even (c * u) u ≡ c
unfolding round_half_even
round_half_even_exact c u h =
    rw (mul-div_cancel c h) (ground (arith, div-add-mod' (c * u) u, mul-div_cancel c h))

pub round_half_even-le : (p u c : ℕ) → 0 < u → p ≤ c * u → round_half_even p u ≤ c
round_half_even-le p u c h le =
    omega (arith, round_half_even_mono p (c * u) u h le, round_half_even_exact c u h)

pub round_half_even-ge : (p u c : ℕ) → 0 < u → c * u ≤ p → c ≤ round_half_even p u
round_half_even-ge p u c h le =
    omega (arith, round_half_even_mono (c * u) p u h le, round_half_even_exact c u h)

-- The half of `precision`, 2^52.
abbrev half_precision : ℕ
half_precision = 4503599627370496

scale_le : (a b u : ℕ) → a ≤ b → a * u ≤ b * u
scale_le a b u h = grind arith

step-le :
    (p u j k : ℕ)
    → 0 < u
    → u * j ≡ precision
    → p ≤ k * precision
    → round_half_even p u * u ≤ k * precision
step-le p u j k h e le =
    let whole : k * j * u ≡ k * precision = omega (arith, ap (λ (t : ℕ). k * t) e) in
    let fits : p ≤ k * j * u = omega arith in
    le_trans (scale_le _ (k * j) u (round_half_even-le p u (k * j) h fits)) (omega arith)

-- Rounding does not pass a multiple of 2^53.
round_from-le :
    (f u p k : ℕ)
    → 0 < u
    → u * 2 ^ f ≡ precision
    → p ≤ k * precision
    → round_from f u p ≤ k * precision
unfolding round_from
round_from-le zero u p k h e le = step-le p u (2 ^ 0) k h e le
round_from-le (suc f) u p k h e le = elim (Bool-cases (ltb p (u * precision))) [
  | inl stop ↦ rw stop (step-le p u (2 ^ suc f) k h e le)
  | inr go ↦ rw go (
      round_from-le f (2 * u) p k (omega arith) (omega (arith, ap (λ (t : ℕ). u * t) (pow-suc 2 f)))
        le)
]

round_from-ge : (f u p : ℕ) → 0 < u → half_precision * u ≤ p → half_precision * u ≤ round_from f u p
unfolding round_from
round_from-ge zero u p h le = scale_le _ _ u (round_half_even-ge p u half_precision h le)
round_from-ge (suc f) u p h le = elim (Bool-cases (ltb p (u * precision))) [
  | inl stop ↦ rw stop (scale_le _ _ u (round_half_even-ge p u half_precision h le))
  | inr go ↦ rw go (le_trans (omega arith) (round_from-ge f (2 * u) p (omega arith) (ground arith)))
]

round_from_mono : (f u p p' : ℕ) → 0 < u → p ≤ p' → round_from f u p ≤ round_from f u p'
unfolding round_from
round_from_mono zero u p p' h le = scale_le _ _ u (round_half_even_mono p p' u h le)
round_from_mono (suc f) u p p' h le = elim (Bool-cases (ltb p (u * precision))) [
  | inl stop ↦ elim (Bool-cases (ltb p' (u * precision))) [
    | inl stop' ↦ rw (stop, stop') (scale_le _ _ u (round_half_even_mono p p' u h le))
    | inr go' ↦
        rw (stop, go')
          (le_trans (scale_le _ precision u (round_half_even-le p u precision h (ground arith))) (
            le_trans {m = half_precision * (2 * u)} (omega arith)
              (round_from-ge f (2 * u) p' (omega arith) (ground arith))))
  ]
  | inr go ↦ elim (Bool-cases (ltb p' (u * precision))) [
    | inl stop' ↦ absurd (ground arith)
    | inr go' ↦ rw (go, go') (round_from_mono f (2 * u) p p' (omega arith) le)
  ]
]

-- For a constant of at most one, the rounded product of it and a count is at most the count.
pub scaled_index-le : (m k : ℕ) → m ≤ precision → scaled_index m k ≤ k
unfolding scaled_index
scaled_index-le m k h = div-le_of_le-mul precision (
    le_trans (round_from-le 53 1 (m * k) k (omega arith) (omega arith) (grind arith)) (omega arith))

pub scaled_index_mono : (m m' k : ℕ) → m ≤ m' → scaled_index m k ≤ scaled_index m' k
unfolding scaled_index
scaled_index_mono m m' k h =
    quotient_mono _ _ precision (omega arith)
      (round_from_mono 53 1 (m * k) (m' * k) (omega arith) (scale_le m m' k h))
