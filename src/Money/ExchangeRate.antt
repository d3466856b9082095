-- ===== src/Money/ExchangeRate.antt =====
-- packages/shared/src/money/exchange-rate.ts: the class `ExchangeRate`, its constructors and its two
-- conversions. A rate is frozen once it is made; its times are milliseconds.
use crypto_payment.Prelude.{ℕ, String, Bool, Result, ok, require, str_eq, ◌>>=◌, ◌>>◌}
use crypto_payment.Prelude.Int.{ℤ, ◌-ℤ◌, ◌*ℤ◌, is_pos, ltb_ℤ}
use crypto_payment.Money.Decimal.{
  RoundingMode, MoneyError, rate_not_positive, wrong_asset, pow10, divide,
}
use crypto_payment.Money.Amount.{Money, from_units}
use crypto_payment.Money.Text.{Text, parse_units}

abbrev pub rate_scale : ℕ
rate_scale = 18

pub record ExchangeRate : Type 0 where
  pub base : String
  pub quote : String
  pub numerator : ℤ
  pub provider : String
  pub observed_at : ℤ

-- The constructor.
unfoldable pub new_rate : String → String → ℤ → String → ℤ → Result MoneyError ExchangeRate
new_rate base quote numerator provider observed_at = do
  require (is_pos numerator) rate_not_positive
  ok (record {
    base = base;
    quote = quote;
    numerator = numerator;
    provider = provider;
    observed_at = observed_at;
  })

unfoldable pub from_decimal : String → String → Text → String → ℤ → Result MoneyError ExchangeRate
from_decimal base quote rate provider observed_at = do
  numerator ← parse_units rate rate_scale
  new_rate base quote numerator provider observed_at

unfoldable pub identity : String → String → ℤ → Result MoneyError ExchangeRate
identity asset provider observed_at = do
  numerator ← pow10 rate_scale
  new_rate asset asset numerator provider observed_at

-- `ageMs` and `isStale`, at a time `now`.
unfoldable pub is_stale : ExchangeRate → ℤ → ℤ → Bool
is_stale rate now max_age_ms = ltb_ℤ max_age_ms (now -ℤ rate.observed_at)

unfoldable pub convert_quote_to_base :
    ExchangeRate → Money → ℕ → RoundingMode → Result MoneyError Money
convert_quote_to_base rate amount base_decimals mode = do
  require (str_eq amount.asset rate.quote) wrong_asset
  base_scale ← pow10 base_decimals
  scale ← pow10 rate_scale
  quote_scale ← pow10 amount.decimals
  units ← divide (amount.units *ℤ base_scale *ℤ scale) (quote_scale *ℤ rate.numerator) mode
  ok (from_units units rate.base base_decimals)

unfoldable pub convert_base_to_quote :
    ExchangeRate → Money → ℕ → RoundingMode → Result MoneyError Money
convert_base_to_quote rate amount quote_decimals mode = do
  require (str_eq amount.asset rate.base) wrong_asset
  quote_scale ← pow10 quote_decimals
  scale ← pow10 rate_scale
  base_scale ← pow10 amount.decimals
  units ← divide (amount.units *ℤ rate.numerator *ℤ quote_scale) (scale *ℤ base_scale) mode
  ok (from_units units rate.quote quote_decimals)
