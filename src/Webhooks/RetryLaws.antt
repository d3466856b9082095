-- ===== src/Webhooks/RetryLaws.antt =====
-- How far the delays of packages/webhooks/src/retry-policy.ts reach.
use crypto_payment.Prelude.{ℕ, suc, ◌+◌, ◌-◌, ◌*◌, ◌^◌, ◌≤◌, ◌<◌, ok, le→leb, ◌≡◌, refl, arith, min}
use crypto_payment.Webhooks.Retry.{
  Fraction, RetryPolicyOptions, math_round, with_jitter, compute_retry_delay_ms,
}

-- The quotient, by its two bounds.
round_bounds :
    (x d : ℕ)
    → 1 ≤ d
    → (2 * (d * math_round x d) ≤ 2 * x + d) × (2 * x < 2 * (d * math_round x d) + d)
round_bounds x d positive = grind arith

cancel : (d a b : ℕ) → 1 ≤ d → d * a ≤ d * b → a ≤ b
cancel d a b positive h = grind arith

-- The jittered sum is within the spread of the value: `s` for `e * num`, `n / d` for the draw.
within_spread :
    (v s n d : ℕ)
    → n < d
    → (v + 2 * (s * n) - s * d ≤ v + s * d) × (v ≤ (v + 2 * (s * n) - s * d) + s * d)
within_spread v s n d h = grind arith

-- The rounded quotient of `x` by `m * d`, where `x` is within `e * n * d` of `e * (m * d)`.
round_within :
    (e m n d x : ℕ)
    → 1 ≤ m
    → 1 ≤ d
    → x ≤ e * (m * d) + e * n * d
    → e * (m * d) ≤ x + e * n * d
    → (2 * (m * e) ≤ 2 * (m * math_round x (m * d)) + 2 * (n * e) + m)
      × (2 * (m * math_round x (m * d)) ≤ 2 * (m * e) + 2 * (n * e) + m)
round_within e m n d x m1 d1 high low =
    let D1 : 1 ≤ m * d = grind arith in
    let q = math_round x (m * d) in
    let (below, above) = round_bounds x (m * d) D1 in
    (
      cancel d (2 * (m * e)) (2 * (m * q) + 2 * (n * e) + m) d1 (grind (arith, below, above)),
      cancel d (2 * (m * q)) (2 * (m * e) + 2 * (n * e) + m) d1 (grind (arith, below, above)),
    )

round_capped : (cap x d : ℕ) → 1 ≤ d → x ≤ cap * d → math_round x d ≤ cap
round_capped cap x d d1 h =
    let (below, above) = round_bounds x d d1 in let q = math_round x d in grind (arith, below)

-- For a ratio and a draw of `Math.random` (a fraction below 1) with positive denominators, the attempt
-- `k + 1` that failed gets a delay. It is never over the cap. With `e = min(max, base * 2 ^ k)`, it is
-- within `e * ratio` of `e`, up to half a millisecond for the rounding.
pub retry_delay_bounds :
    (options : RetryPolicyOptions) (random : Fraction) (k : ℕ)
    → 1 ≤ options.jitter_ratio.den
    → random.num < random.den
    → let e = min options.max_delay_ms (options.base_delay_ms * 2 ^ k) in
      let n = options.jitter_ratio.num in
      let m = options.jitter_ratio.den in
      (delay : ℕ) × (compute_retry_delay_ms options random (suc k) ≡ ok delay)
      × (delay ≤ options.max_delay_ms)
      × (2 * (m * e) ≤ 2 * (m * delay) + 2 * (n * e) + m)
      × (2 * (m * delay) ≤ 2 * (m * e) + 2 * (n * e) + m)
unfolding compute_retry_delay_ms
retry_delay_bounds options random k m1 drawn =
    let e = min options.max_delay_ms (options.base_delay_ms * 2 ^ k) in
    let n = options.jitter_ratio.num in
    let m = options.jitter_ratio.den in
    let d = random.den in
    let cap = options.max_delay_ms * (m * d) in
    let y = with_jitter options random e in
    let d1 : 1 ≤ d = omega (arith, drawn) in
    let (high, low) = within_spread (e * (m * d)) (e * n) random.num d drawn in
    let capped : e * (m * d) ≤ cap = grind arith in
    let x_high : min cap y ≤ e * (m * d) + e * n * d = grind (arith, high) in
    let x_low : e * (m * d) ≤ min cap y + e * n * d = grind (arith, low, capped) in
    let (lower, upper) = round_within e m n d (min cap y) m1 d1 x_high x_low in
    let D1 : 1 ≤ m * d = grind arith in
    let back : suc k - 1 ≡ k = omega arith in
    let under : min cap y ≤ cap = grind arith in
    (
      math_round (min cap y) (m * d),
      rw (le→leb 1 (suc k) (omega arith), back) refl,
      round_capped options.max_delay_ms (min cap y) (m * d) D1 under,
      lower,
      upper,
    )
