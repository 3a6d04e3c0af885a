-- ===== src/Ingestion/Rates/Bounds.antt =====
-- The accept rate is a percentage.
use sentinelstream.Prelude.{
  ℕ, zero, suc, ◌+◌, ◌-◌, ◌*◌, ◌%◌, u64_mod, subst, ◌^◌, ◌≤◌, ◌<◌, ◌≡◌, ◌↔◌, refl, sym, ap, ◌∙◌,
  pos, arith, lt→ltb,
}
use sentinelstream.Float.{finite, units, units_pos, whole, Between}
use sentinelstream.Float.Arith.{div_float}
use sentinelstream.Float.Bounds.{scale_zero, scale_pos}
use sentinelstream.Float.Exact.{
  of_whole_exact, mul_whole, div_exact, div_upto, fraction-units, fraction_pos,
}
use sentinelstream.Ingestion.Rates.{accept_rate}

rate_quotient :
    (received rejected : ℕ)
    → 0 < received + rejected
    → received + rejected < 2 ^ 46
    → accept_rate received rejected
      ≡ div_float
          (finite (pos (100 * received * units)))
          (finite (pos ((received + rejected) * units)))
unfolding accept_rate
rate_quotient received rejected h small =
    let total : (received + rejected) % u64_mod ≡ received + rejected = omega arith in
    rw
      (
        total,
        lt→ltb 0 (received + rejected) h,
        scale_pos 100,
        of_whole_exact received (omega arith),
        of_whole_exact (received + rejected) (omega arith),
        mul_whole 100 received (omega arith),
      )
      refl

percentage : (m : ℕ) → m ≤ 100 * units → Between (pos 0) (pos 100) (finite (pos m))
percentage m h = rw (scale_zero, scale_pos 100) (omega arith, omega arith)

-- A rate that is a fraction below 100 is not 100.
ne-hundred : (m : ℕ) → m < 100 * units → finite (pos m) ≡ whole (pos 100) → ⊥
ne-hundred m h e =
    let same : finite (pos m) ≡ finite (pos (100 * units)) = e ∙ ap finite (scale_pos 100) in
    let values : m ≡ 100 * units = cc same in omega (arith, values, h)

rate_none : accept_rate 0 0 ≡ finite (pos 0)
unfolding accept_rate
rate_none = ap finite scale_zero

rate_all : (n : ℕ) → suc n + 0 < 2 ^ 46 → accept_rate (suc n) 0 ≡ finite (pos (100 * units))
rate_all n small =
    let whole_part : 100 * suc n ≡ 100 * (suc n + 0) = omega arith in
    rate_quotient (suc n) 0 (omega arith) small
    ∙ ap (λ k. div_float (finite (pos (k * units))) (finite (pos ((suc n + 0) * units)))) whole_part
    ∙ div_exact 100 (suc n + 0) (omega arith) (omega arith)

rate_some :
    (received n : ℕ)
    → received + suc n < 2 ^ 46
    → (m : ℕ) × (accept_rate received (suc n) ≡ finite (pos m)) × (m < 100 * units)
rate_some received n small =
    let (m, e, le) =
      div_upto (100 * received) (received + suc n) (100 * 2 ^ 46 - 1) (omega arith) (omega arith)
        (omega arith) in
    (
      m,
      rate_quotient received (suc n) (omega arith) small ∙ e,
      omega (arith, le, fraction-units, fraction_pos),
    )

-- Of fewer than 2^46 messages in all, the accept rate as Go rounds it is between 0 and 100, and it is
-- 100 exactly if some message is received and none is rejected.
pub accept_rate_bounds :
    (received rejected : ℕ)
    → received + rejected < 2 ^ 46
    → (Between (pos 0) (pos 100) (accept_rate received rejected))
      × ((accept_rate received rejected ≡ whole (pos 100)) ↔ ((0 < received) × (rejected ≡ 0)))
accept_rate_bounds zero zero small = (
  subst (Between (pos 0) (pos 100)) (sym rate_none) (percentage 0 (omega arith)),
  (
    λ e. absurd (ne-hundred 0 (omega (arith, units_pos)) (sym rate_none ∙ e)),
    λ h. absurd (omega (arith, h.0)),
  ),
)
accept_rate_bounds (suc n) zero small =
    let e = rate_all n small in
    (
      subst (Between (pos 0) (pos 100)) (sym e) (percentage (100 * units) (omega arith)),
      (λ _. (omega arith, refl), λ _. e ∙ ap finite (sym (scale_pos 100))),
    )
accept_rate_bounds received (suc n) small =
    let (m, e, less) = rate_some received n small in
    (
      subst (Between (pos 0) (pos 100)) (sym e) (percentage m (omega (arith, less))),
      (λ h. absurd (ne-hundred m less (sym e ∙ h)), λ h. absurd (omega (arith, h.1))),
    )
