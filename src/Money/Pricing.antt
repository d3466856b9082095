-- ===== src/Money/Pricing.antt =====
-- What packages/shared/src/money/exchange-rate.ts asks a customer to pay.
use native.Mathlib.Nat.{mul-pos}
use crypto_payment.Prelude.{
  ℕ, zero, suc, ◌+◌, ◌*◌, ◌^◌, ◌≤◌, ◌<◌, String, ok, eq_iff, le→leb, ◌≡◌, refl, arith, sym, subst,
}
use crypto_payment.Prelude.Int.{ℤ, pos, ◌+ℤ◌, ◌*ℤ◌, div_trunc, mod_trunc}
use crypto_payment.Money.Decimal.{ceil, divide, div_ceil, pow10}
use crypto_payment.Money.Rounding.{div_up, div_up_bounds}
use crypto_payment.Money.Amount.{from_units}
use crypto_payment.Money.Natural.{amount}
use crypto_payment.Money.Text.Parsing.{power_positive}
use crypto_payment.Money.ExchangeRate.{ExchangeRate, rate_scale, convert_quote_to_base}

div_ceil-up : (n d : ℕ) → div_ceil (pos n) (pos (suc d)) ≡ ok (pos (div_up n (suc d)))
unfolding div_ceil div_trunc mod_trunc ◌+ℤ◌
div_ceil-up n d = ground arith

scale_ok : (k : ℕ) → k ≤ 72 → pow10 k ≡ ok (pos (10 ^ k))
unfolding pow10
scale_ok k fits = rw (le→leb k 72 fits)

abbrev pub rate_of : String → String → ℕ → String → ℤ → ExchangeRate
rate_of base quote numerator provider observed_at = record {
  base = base;
  quote = quote;
  numerator = pos numerator;
  provider = provider;
  observed_at = observed_at;
}

predecessor : (n : ℕ) → 0 < n → (d : ℕ) × (n ≡ suc d)
predecessor zero h = absurd (omega (arith, h))
predecessor (suc d) h = (d, refl)

module _ (base quote provider : String) (observed_at : ℤ)
    (numerator quote_decimals base_decimals units : ℕ) (rate_positive : 0 < numerator)
    (quote_fits : quote_decimals ≤ 72) (base_fits : base_decimals ≤ 72) where
  -- Both sides of the division: what is asked for, and what one unit of the base asset is worth.
  abbrev pub asked : ℕ
  asked = units * 10 ^ base_decimals * 10 ^ rate_scale

  abbrev pub unit_worth : ℕ
  unit_worth = 10 ^ quote_decimals * numerator

  convert_up :
      (d : ℕ)
      → unit_worth ≡ suc d
      → convert_quote_to_base
          (rate_of base quote numerator provider observed_at)
          (amount quote quote_decimals units)
          base_decimals
          ceil
        ≡ ok (amount base base_decimals (div_up asked (suc d)))
  unfolding convert_quote_to_base divide from_units ◌*ℤ◌ pow10
  convert_up d h = rw (
    (eq_iff quote quote).1 refl,
    scale_ok base_decimals base_fits,
    scale_ok quote_decimals quote_fits,
    h,
    div_ceil-up asked d,
  )

  -- The bounds of the division, with the divisor written as the worth.
  covers : (d : ℕ) → unit_worth ≡ suc d → (q : ℕ) → asked ≤ q * suc d → asked ≤ q * unit_worth
  covers d h q enough = subst (λ w. asked ≤ q * w) (sym h) enough

  least_cover :
      (d : ℕ)
      → unit_worth ≡ suc d
      → (q : ℕ) → q * suc d < asked + suc d
      → q * unit_worth < asked + unit_worth
  least_cover d h q least = subst (λ w. q * w < asked + w) (sym h) least

  -- An amount of the quote currency, that is not negative, is priced at the least whole number of base
  -- units that is worth it at a positive rate: never less than it, and less than one unit more. It
  -- holds for scales of up to 72 decimals, and no error is thrown.
  pub price_covers_amount :
      (q : ℕ) × (convert_quote_to_base
          (rate_of base quote numerator provider observed_at)
          (amount quote quote_decimals units)
          base_decimals
          ceil
        ≡ ok (amount base base_decimals q))
      × (asked ≤ q * unit_worth)
      × (q * unit_worth < asked + unit_worth)
  price_covers_amount =
      let (d, h) = predecessor unit_worth (mul-pos (power_positive quote_decimals) rate_positive) in
      let (enough, least) = div_up_bounds asked d in
      (
        div_up asked (suc d),
        convert_up d h,
        covers d h (div_up asked (suc d)) enough,
        least_cover d h (div_up asked (suc d)) least,
      )
