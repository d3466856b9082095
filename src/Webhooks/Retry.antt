-- ===== src/Webhooks/Retry.antt =====
-- packages/webhooks/src/retry-policy.ts. The fractions that the source keeps as floats, the ratio of the
-- jitter and the draw of `Math.random`, are exact here, so that a sum of milliseconds is a numerator over
-- the product of their denominators.
use crypto_payment.Prelude.{
  ℕ, ◌+◌, ◌-◌, ◌*◌, ◌/◌, ◌^◌, Bool, ◌&&◌, Result, ok, require, leb, ltb, min, ◌>>◌,
}

pub record Fraction : Type 0 where
  pub num : ℕ
  pub den : ℕ

pub record RetryPolicyOptions : Type 0 where
  pub base_delay_ms : ℕ
  pub max_delay_ms : ℕ
  pub jitter_ratio : Fraction

-- `DEFAULT_BASE_DELAY_MS`, `DEFAULT_MAX_DELAY_MS` and `DEFAULT_JITTER_RATIO`
abbrev pub default_options : RetryPolicyOptions
default_options = record {
  base_delay_ms = 30000;
  max_delay_ms = 60 * 60 * 1000;
  jitter_ratio = record { num = 1; den = 5 };
}

-- The `RangeError` of an attempt that is not positive.
pub data RetryError : Type 0 where
  bad_attempt : ℕ → RetryError

abbrev pub exponential : RetryPolicyOptions → ℕ → ℕ
exponential options failed_attempt =
    min options.max_delay_ms (options.base_delay_ms * 2 ^ (failed_attempt - 1))

-- `Math.round` of `x / d`: halves go up.
abbrev pub math_round : ℕ → ℕ → ℕ
math_round x d = (2 * x + d) / (2 * d)

module _ (options : RetryPolicyOptions) (random : Fraction) where
  abbrev pub jitter_scale : ℕ
  jitter_scale = options.jitter_ratio.den * random.den

  -- `exponential + exponential * jitterRatio * (Math.random() * 2 - 1)`, times the scale. A sum below 0
  -- stops at 0 here, which `Math.max(0, …)` makes of it in the source.
  abbrev pub with_jitter : ℕ → ℕ
  with_jitter e =
      let spread = e * options.jitter_ratio.num in
      e * jitter_scale + 2 * (spread * random.num) - spread * random.den

  unfoldable pub compute_retry_delay_ms : ℕ → Result RetryError ℕ
  compute_retry_delay_ms failed_attempt = do
    require (leb 1 failed_attempt) (bad_attempt failed_attempt)
    ok (
        math_round
          (min (options.max_delay_ms * jitter_scale)
            (with_jitter (exponential options failed_attempt)))
          jitter_scale)

unfoldable pub is_success_status : ℕ → Bool
is_success_status http_status = leb 200 http_status && ltb http_status 300
