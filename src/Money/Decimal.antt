-- ===== src/Money/Decimal.antt =====
-- packages/shared/src/money/decimal.ts: integer division in three rounding modes, and precision.
-- A count of decimals is a JavaScript number that the callers take from the asset registry or a
-- column of non-negative integers, so it is a natural number here.
use crypto_payment.Prelude.{
  ℕ, ◌-◌, ◌*◌, ◌^◌, not, ◌&&◌, Result, ok, require, ltb, leb, ◌==◌, if◌then◌else◌, ◌>>=◌, ◌>>◌,
}
use crypto_payment.Prelude.Int.{
  ℤ, pos, ◌+ℤ◌, ◌-ℤ◌, ◌*ℤ◌, neg, ltb_ℤ, leb_ℤ, is_neg, is_zero, differ, div_trunc, mod_trunc,
}

pub data RoundingMode : Type 0 where
  floor ceil half_up : RoundingMode

-- The messages of `MoneyError`.
pub data MoneyError : Type 0 where
  bad_decimals bad_exponent : ℕ → MoneyError
  invalid_amount division_by_zero : MoneyError
  too_many_places : ℕ → ℕ → MoneyError
  different_assets wrong_asset rate_not_positive : MoneyError

abbrev pub max_decimals : ℕ
max_decimals = 36

unfoldable pub assert_decimals : ℕ → Result MoneyError (Unit {0})
assert_decimals decimals = require (leb decimals max_decimals) (bad_decimals decimals)

unfoldable pub pow10 : ℕ → Result MoneyError ℤ
pow10 exponent = do
  require (leb exponent (max_decimals * 2)) (bad_exponent exponent)
  ok (pos (10 ^ exponent))

unfoldable pub div_floor : ℤ → ℤ → Result MoneyError ℤ
div_floor numerator denominator = do
  require (not (is_zero denominator)) division_by_zero
  let quotient = div_trunc numerator denominator
  let has_remainder = not (is_zero (mod_trunc numerator denominator))
  let negative_result = differ (is_neg numerator) (is_neg denominator)
  ok (if has_remainder && negative_result then quotient -ℤ pos 1 else quotient)

unfoldable pub div_ceil : ℤ → ℤ → Result MoneyError ℤ
div_ceil numerator denominator = do
  require (not (is_zero denominator)) division_by_zero
  let quotient = div_trunc numerator denominator
  let has_remainder = not (is_zero (mod_trunc numerator denominator))
  let positive_result = not (differ (is_neg numerator) (is_neg denominator))
  ok (if has_remainder && positive_result then quotient +ℤ pos 1 else quotient)

-- `value < 0n ? -value : value`
unfoldable pub abs_units : ℤ → ℤ
abs_units units = if is_neg units then neg units else units

unfoldable pub div_half_up : ℤ → ℤ → Result MoneyError ℤ
unfolding abs_units
div_half_up numerator denominator = do
  require (not (is_zero denominator)) division_by_zero
  let negative_result = differ (is_neg numerator) (is_neg denominator)
  let abs_numerator = abs_units numerator
  let abs_denominator = abs_units denominator
  let quotient = div_trunc abs_numerator abs_denominator
  let remainder = mod_trunc abs_numerator abs_denominator
  let rounded = if leb_ℤ abs_denominator (remainder *ℤ pos 2) then quotient +ℤ pos 1 else quotient
  ok (if negative_result then neg rounded else rounded)

unfoldable pub divide : ℤ → ℤ → RoundingMode → Result MoneyError ℤ
divide numerator denominator floor = div_floor numerator denominator
divide numerator denominator ceil = div_ceil numerator denominator
divide numerator denominator half_up = div_half_up numerator denominator

unfoldable pub rescale_units : ℤ → ℕ → ℕ → RoundingMode → Result MoneyError ℤ
rescale_units units from_decimals to_decimals mode = do
  assert_decimals from_decimals
  assert_decimals to_decimals
  (if from_decimals == to_decimals
      then ok units
      else if ltb from_decimals to_decimals
      then (do factor ← pow10 (to_decimals - from_decimals); ok (units *ℤ factor))
      else (do factor ← pow10 (from_decimals - to_decimals); divide units factor mode))

unfoldable pub min_units : ℤ → ℤ → ℤ
min_units a b = if ltb_ℤ a b then a else b

unfoldable pub max_units : ℤ → ℤ → ℤ
max_units a b = if ltb_ℤ b a then a else b
