-- ===== src/Money/Amount.antt =====
-- packages/shared/src/money/money.ts: the class `Money`.
use crypto_payment.Prelude.{
  ℕ, String, Bool, true, false, not, ◌&&◌, Result, ok, require, ◌==◌, str_eq, if◌then◌else◌, ◌>>=◌,
  ◌>>◌,
}
use crypto_payment.Prelude.Int.{
  ℤ, pos, ◌+ℤ◌, ◌-ℤ◌, ◌*ℤ◌, neg, ltb_ℤ, leb_ℤ, eqb_ℤ, is_neg, is_zero, differ, div_trunc, mod_trunc,
}
use crypto_payment.Money.Decimal.{
  RoundingMode, floor, ceil, half_up, MoneyError, division_by_zero, different_assets, abs_units,
  rescale_units,
}

pub record Money : Type 0 where
  pub units : ℤ
  pub asset : String
  pub decimals : ℕ

-- `Money.fromUnits`; a `bigint` is all that `units` can be
unfoldable pub from_units : ℤ → String → ℕ → Money
from_units units asset decimals = record { units = units; asset = asset; decimals = decimals }

unfoldable pub zero_of : String → ℕ → Money
zero_of asset decimals = record { units = pos 0; asset = asset; decimals = decimals }

unfoldable pub same_asset : Money → Money → Bool
same_asset a b = str_eq a.asset b.asset && a.decimals == b.decimals

unfoldable pub assert_same_asset : Money → Money → Result MoneyError (Unit {0})
assert_same_asset a b = require (same_asset a b) different_assets

-- `Money.add`
unfoldable pub add : Money → Money → Result MoneyError Money
add a b = do assert_same_asset a b; ok (record a { units = a.units +ℤ b.units })

-- `Money.subtract`
unfoldable pub subtract : Money → Money → Result MoneyError Money
subtract a b = do assert_same_asset a b; ok (record a { units = a.units -ℤ b.units })

unfoldable pub multiply_integer : Money → ℤ → Money
multiply_integer a factor = record a { units = a.units *ℤ factor }

-- The private `floorDiv`, `ceilDiv` and `halfUpDiv` of money.ts, which test no divisor.
unfoldable pub floor_div : ℤ → ℤ → ℤ
floor_div numerator denominator =
    let quotient = div_trunc numerator denominator in
    let negative = differ (is_neg numerator) (is_neg denominator) in
    if negative && not (is_zero (mod_trunc numerator denominator))
    then quotient -ℤ pos 1
    else quotient

unfoldable pub ceil_div : ℤ → ℤ → ℤ
ceil_div numerator denominator =
    let quotient = div_trunc numerator denominator in
    let positive = not (differ (is_neg numerator) (is_neg denominator)) in
    if positive && not (is_zero (mod_trunc numerator denominator))
    then quotient +ℤ pos 1
    else quotient

unfoldable pub half_up_div : ℤ → ℤ → ℤ
half_up_div numerator denominator =
    let negative = differ (is_neg numerator) (is_neg denominator) in
    let abs_n = if is_neg numerator then neg numerator else numerator in
    let abs_d = if is_neg denominator then neg denominator else denominator in
    let quotient = div_trunc abs_n abs_d in
    let remainder = mod_trunc abs_n abs_d in
    let rounded = if leb_ℤ abs_d (remainder *ℤ pos 2) then quotient +ℤ pos 1 else quotient in
    if negative then neg rounded else rounded

-- The division that `multiplyRatio` chooses.
unfoldable pub scale : RoundingMode → ℤ → ℤ → ℤ
scale floor product denominator = floor_div product denominator
scale ceil product denominator = ceil_div product denominator
scale half_up product denominator = half_up_div product denominator

unfoldable pub multiply_ratio : Money → ℤ → ℤ → RoundingMode → Result MoneyError Money
multiply_ratio a numerator denominator mode = do
  require (not (is_zero denominator)) division_by_zero
  let product = a.units *ℤ numerator
  ok (record a { units = scale mode product denominator })

unfoldable pub percentage_bps : Money → ℤ → RoundingMode → Result MoneyError Money
percentage_bps a bps mode = multiply_ratio a bps (pos 10000) mode

-- `compare` gives -1, 0 or 1.
pub data Sign : Type 0 where
  less equal greater : Sign

unfoldable pub compare : Money → Money → Result MoneyError Sign
compare a b = do
  assert_same_asset a b
  ok (if ltb_ℤ a.units b.units then less else if ltb_ℤ b.units a.units then greater else equal)

-- `equals`
unfoldable pub equals : Money → Money → Bool
equals a b = same_asset a b && eqb_ℤ a.units b.units

abbrev pub is_greater : Sign → Bool
is_greater greater = true
is_greater _ = false

abbrev pub is_less : Sign → Bool
is_less less = true
is_less _ = false

unfoldable pub greater_than : Money → Money → Result MoneyError Bool
greater_than a b = do sign ← compare a b; ok (is_greater sign)

unfoldable pub greater_than_or_equal : Money → Money → Result MoneyError Bool
greater_than_or_equal a b = do sign ← compare a b; ok (not (is_less sign))

unfoldable pub less_than : Money → Money → Result MoneyError Bool
less_than a b = do sign ← compare a b; ok (is_less sign)

unfoldable pub less_than_or_equal : Money → Money → Result MoneyError Bool
less_than_or_equal a b = do sign ← compare a b; ok (not (is_greater sign))

unfoldable pub abs : Money → Money
abs a = record a { units = abs_units a.units }

unfoldable pub negate : Money → Money
negate a = record a { units = neg a.units }

unfoldable pub with_decimals : Money → ℕ → RoundingMode → Result MoneyError Money
with_decimals a decimals mode = do
  units ← rescale_units a.units a.decimals decimals mode
  ok (record { units = units; asset = a.asset; decimals = decimals })
