-- ===== src/Watchdog/Period.antt =====
-- The ping period is positive, and with the interval it keeps the divisor's promise.
use native.Mathlib.Nat.{mul-le-mul_right}
use micropython_systemd.Prelude.{
  ℕ, suc, ◌+◌, ◌*◌, ◌/◌, ◌<◌, ◌≤◌, ◌≡◌, ◌⊎◌, inl, inr, refl, arith, ◌==◌, Bool-cases, pos,
}
use micropython_systemd.Errors.{ok}
use micropython_systemd.Watchdog.{watchdog_period_ms}

-- The two roundings down together are one, by the product.
quotient_bounds :
    (n d : ℕ) → 0 < d → (n / d / 1000 * 1000 * d ≤ n) × (n < (n / d / 1000 + 1) * 1000 * d)
quotient_bounds n d h =
    let m = n / d in
    let a : m / 1000 * 1000 ≤ m = omega arith in
    let b : m + 1 ≤ (m / 1000 + 1) * 1000 = omega arith in
    let low : m / 1000 * 1000 * d ≤ m * d = mul-le-mul_right d a in
    let high : (m + 1) * d ≤ (m / 1000 + 1) * 1000 * d = mul-le-mul_right d b in
    (grind arith, grind arith)

-- For an interval of n microseconds and a divisor from 1 up the period is a positive number p of
-- milliseconds. It is the largest number for which the divisor's many periods fit into the
-- interval, unless not even one millisecond does: then it is 1.
pub watchdog_period_ms_lem :
    (n d : ℕ)
    → (p : ℕ) × (watchdog_period_ms (pos n) (pos (suc d)) ≡ ok (pos p))
      × (0 < p)
      × (((p * 1000 * suc d ≤ n) × (n < (p + 1) * 1000 * suc d)) ⊎ ((p ≡ 1) × (n < 1000 * suc d)))
unfolding watchdog_period_ms
watchdog_period_ms_lem n d =
    let q = n / suc d / 1000 in
    let (low, high) = quotient_bounds n (suc d) (omega arith) in
    elim (Bool-cases (q == 0)) [
      | inl none_fits ↦
          let zero_q : q ≡ 0 = ground arith in
          (1, rw none_fits refl, omega arith, inr (refl, rw zero_q at high))
      | inr fits ↦ (q, rw fits refl, ground arith, inl (low, high))
    ]
