-- ===== src/Money/Natural.antt =====
-- `Money` (packages/shared/src/money/money.ts) on amounts that are not negative.
use text.Mathlib.TextPositions.{eq_refl}
use crypto_payment.Prelude.{
  ℕ, zero, suc, ◌+◌, ◌-◌, ◌*◌, ◌/◌, ◌≤◌, ◌<◌, ◌≡◌, refl, String, true, ok, arith, ==_iff, ltb,
}
use crypto_payment.Prelude.Int.{pos, ◌+ℤ◌, ◌-ℤ◌, ◌*ℤ◌, is_pos, div_trunc}
use crypto_payment.Money.Decimal.{floor}
use crypto_payment.Money.Amount.{
  Money, same_asset, assert_same_asset, add, subtract, percentage_bps, multiply_ratio, scale,
  floor_div, compare, less_than, greater_than,
}

-- A share of at most 10000 basis points is at most the whole.
pub share-le : (r u : ℕ) → u ≤ 10000 → r * u / 10000 ≤ r
share-le r u h = let bound : r * u ≤ r * 10000 = grind arith in omega arith

module _ (asset : String) (decimals : ℕ) where
  abbrev pub amount : ℕ → Money
  amount units = record { units = pos units; asset = asset; decimals = decimals }

  pub amount-same : (a b : ℕ) → same_asset (amount a) (amount b) ≡ true
  unfolding same_asset
  amount-same a b = rw (eq_refl asset, (==_iff decimals decimals).1 refl)

  pub percentage_bps-amount :
      (a b : ℕ) → percentage_bps (amount a) (pos b) floor ≡ ok (amount (a * b / 10000))
  unfolding percentage_bps multiply_ratio scale floor_div div_trunc ◌*ℤ◌
  percentage_bps-amount a b = refl

  pub pos-sub : (a b : ℕ) → b ≤ a → pos a -ℤ pos b ≡ pos (a - b)
  unfolding ◌-ℤ◌
  pos-sub a zero h = ground arith
  pos-sub a (suc b) h = ground arith

  pub subtract-amount : (a b : ℕ) → b ≤ a → subtract (amount a) (amount b) ≡ ok (amount (a - b))
  unfolding subtract assert_same_asset
  subtract-amount a b h = rw (amount-same a b, pos-sub a b h)

  pub add-amount : (a b : ℕ) → add (amount a) (amount b) ≡ ok (amount (a + b))
  unfolding add assert_same_asset ◌+ℤ◌
  add-amount a b = rw (amount-same a b)

  pub less_than-amount : (a b : ℕ) → less_than (amount a) (amount b) ≡ ok (ltb a b)
  unfolding less_than compare assert_same_asset
  less_than-amount a b = rw (amount-same a b) (ground arith)

  pub greater_than-amount : (a b : ℕ) → greater_than (amount a) (amount b) ≡ ok (ltb b a)
  unfolding greater_than compare assert_same_asset
  greater_than-amount a b = rw (amount-same a b) (ground arith)

pub is_pos-pos : (r : ℕ) → 0 < r → is_pos (pos r) ≡ true
is_pos-pos zero h = elim h [ ]
is_pos-pos (suc r) h = refl
