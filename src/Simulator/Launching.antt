-- ===== src/Simulator/Launching.antt =====
-- At which rates the loop of `Run` starts.
use native.Mathlib.Nat.{le-div_iff_mul-le, div-eq_of_lt, div-eq_of_lt-le}
use native.Mathlib.Decide.{dec_lt}
use sentinelstream.Prelude.{
  ℕ, zero, suc, ◌*◌, ◌/◌, ◌≤◌, ◌<◌, ◌≡◌, ◌↔◌, sym, ◌∙◌, ap, arith, ℤ, pos, negsuc, pos_part, ◌≤ℤ◌,
  length,
}
use sentinelstream.Clock.{Duration}
use sentinelstream.Simulator.Running.{
  Simulator, Launch, ticks_every, divides_by_zero, bad_interval, interval, launch,
}

quotient_pos : (n : ℕ) → 0 < n → n ≤ 1000 → 0 < 1000 / n
quotient_pos n h k = (le-div_iff_mul-le h).1 (omega arith)

quotient_one : (n : ℕ) → 500 < n → n ≤ 1000 → 1000 / n ≡ 1
quotient_one n h k = div-eq_of_lt-le n (omega arith) (omega arith)

interval_high : (n : ℕ) → 1000 < n → interval (pos n) ≡ bad_interval (pos 0)
unfolding interval
interval_high n h = ground (arith, div-eq_of_lt h)

interval_fine :
    (n : ℕ) → 0 < n → n ≤ 1000 → interval (pos n) ≡ ticks_every (pos (1000 / n * 1000000))
unfolding interval
interval_fine n h k = ground (arith, quotient_pos n h k)

bad-ne-good : (x d : Duration) → bad_interval x ≡ ticks_every d → ⊥
bad-ne-good x d h = cc

zero-ne-good : (d : Duration) → divides_by_zero ≡ ticks_every d → ⊥
zero-ne-good d h = cc

abbrev Starts : Launch → Type 0
Starts l = (d : Duration) × (l ≡ ticks_every d)

interval-Starts : (rate : ℤ) → Starts (interval rate) → (pos 1 ≤ℤ rate) × (rate ≤ℤ pos 1000)
unfolding interval
interval-Starts (pos zero) (d, e) = absurd (zero-ne-good d e)
interval-Starts (pos (suc n)) (d, e) = elim (dec_lt 1000 (suc n)) [
  | yes high ↦ absurd (bad-ne-good (pos 0) d (sym (interval_high (suc n) high) ∙ e))
  | no fine ↦ (omega arith, omega arith)
]
interval-Starts (negsuc n) (d, e) = absurd (bad-ne-good _ d e)

Starts-interval : (rate : ℤ) → pos 1 ≤ℤ rate → rate ≤ℤ pos 1000 → Starts (interval rate)
Starts-interval (pos n) h k =
    (pos (1000 / n * 1000000), interval_fine n (omega arith) (omega arith))
Starts-interval (negsuc n) h k = absurd (omega arith)

quotient_low : (n : ℕ) → 0 < n → n ≤ 500 → 2 ≤ 1000 / n
quotient_low n h k = (le-div_iff_mul-le h).1 (omega arith)

abbrev millisecond : Launch
millisecond = ticks_every (pos 1000000)

interval-millisecond :
    (rate : ℤ) → (interval rate ≡ millisecond) ↔ ((pos 501 ≤ℤ rate) × (rate ≤ℤ pos 1000))
interval-millisecond (pos n) = (
  λ e.
      let (low, high) = interval-Starts (pos n) (pos 1000000, e) in
      let fine : interval (pos n) ≡ ticks_every (pos (1000 / n * 1000000)) =
        interval_fine n (omega arith) (omega arith) in
      let same : pos (1000 / n * 1000000) ≡ pos 1000000 = cc in
      (
        elim (dec_lt 500 n) [
          | yes fast ↦ omega arith
          | no slow ↦
              absurd (omega (arith, quotient_low n (omega arith) (omega arith), ap pos_part same))
        ],
        high,
      ),
  λ r.
      interval_fine n (omega arith) (omega arith)
      ∙ ap (λ q. ticks_every (pos (q * 1000000))) (quotient_one n (omega arith) (omega arith)),
)
interval-millisecond (negsuc n) = (
  λ e. absurd (omega (arith, (interval-Starts (negsuc n) (pos 1000000, e)).0)),
  λ r. absurd (omega arith),
)

launch-interval :
    {S : Type 0} (sim : Simulator S)
    → 0 < length sim.generators
    → launch sim ≡ interval sim.config.message_rate_hz
unfolding launch
launch-interval sim h = ground arith

-- With a sensor at least, `Run` starts its loop exactly at rates from 1 to 1000; at rates from 501 on
-- to there, and only there, it ticks every millisecond.
pub launch_exact :
    {S : Type 0} (sim : Simulator S)
    → 0 < length sim.generators
    → (((d : Duration) × (launch sim ≡ ticks_every d))
        ↔ ((pos 1 ≤ℤ sim.config.message_rate_hz) × (sim.config.message_rate_hz ≤ℤ pos 1000)))
      × ((launch sim ≡ ticks_every (pos 1000000))
          ↔ ((pos 501 ≤ℤ sim.config.message_rate_hz) × (sim.config.message_rate_hz ≤ℤ pos 1000)))
launch_exact sim h =
    let rate = sim.config.message_rate_hz in
    let same = launch-interval sim h in
    (
      (
        λ s. interval-Starts rate (s.0, sym same ∙ s.1),
        λ r. let (d, e) = Starts-interval rate r.0 r.1 in (d, same ∙ e),
      ),
      (
        λ e. (interval-millisecond rate).0 (sym same ∙ e),
        λ r. same ∙ (interval-millisecond rate).1 r,
      ),
    )
