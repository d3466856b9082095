-- ===== src/Money/Rounding.antt =====
-- The divisions of packages/shared/src/money/decimal.ts round as their names say.
use native.Mathlib.Nat.{div-add-mod'}
use crypto_payment.Prelude.{
  Bool-cases, inl, inr, tests, leb, ◌>>=◌, ℕ, zero, suc, ◌+◌, ◌*◌, ◌/◌, ◌%◌, ◌≤◌, ◌<◌, ◌≡◌, ◌≢◌,
  refl, ok, arith, if◌then◌else◌,
}
use crypto_payment.Prelude.Int.{
  ℤ, pos, negsuc, ◌+ℤ◌, ◌-ℤ◌, ◌*ℤ◌, ◌≤ℤ◌, ◌<ℤ◌, div_trunc, mod_trunc, signed, neg, differ, is_neg,
  minus, abs_ℕ,
}
use crypto_payment.Money.Decimal.{div_floor, div_ceil, div_half_up}

-- The natural quotient rounded up.
abbrev round_up : ℕ → ℕ → ℕ
round_up q zero = q
round_up q (suc r) = q + 1

abbrev pub div_up : ℕ → ℕ → ℕ
div_up n d = round_up (n / d) (n % d)

round_up_bounds :
    (q r n d : ℕ)
    → q * suc d + r ≡ n
    → r < suc d
    → (n ≤ round_up q r * suc d) × (round_up q r * suc d < n + suc d)
round_up_bounds q zero n d e h = omega arith
round_up_bounds q (suc r) n d e h = (omega arith, omega arith)

pub div_up_bounds :
    (n d : ℕ) → (n ≤ div_up n (suc d) * suc d) × (div_up n (suc d) * suc d < n + suc d)
div_up_bounds n d =
    round_up_bounds (n / suc d) (n % suc d) n d (div-add-mod' n (suc d)) (omega arith)

div_bounds : (n d : ℕ) → (n / suc d * suc d ≤ n) × (n < n / suc d * suc d + suc d)
div_bounds n d = ground (arith, div-add-mod' n (suc d))

-- `quotient` is the greatest integer that is not above `numerator / denominator`.
abbrev pub IsFloor : ℤ → ℤ → ℤ → Type 0
IsFloor n (pos d) q = (q *ℤ pos d ≤ℤ n) × (n <ℤ (q +ℤ pos 1) *ℤ pos d)
IsFloor n (negsuc d) q = (n ≤ℤ q *ℤ negsuc d) × ((q +ℤ pos 1) *ℤ negsuc d <ℤ n)

-- For operands of one sign the quotient is rounded down in magnitude, for others it is rounded up.
floor_by_sign : ℤ → ℤ → ℤ
floor_by_sign n d =
    if differ (is_neg n) (is_neg d)
    then minus (div_up (abs_ℕ n) (abs_ℕ d))
    else pos (abs_ℕ n / abs_ℕ d)

div_floor-by_sign : (n d : ℤ) → d ≢ pos 0 → div_floor n d ≡ ok (floor_by_sign n d)
unfolding div_floor div_trunc mod_trunc ◌-ℤ◌ floor_by_sign
div_floor-by_sign (pos n) (pos (suc d)) h = ground arith
div_floor-by_sign (pos n) (pos zero) h = absurd (h refl)
div_floor-by_sign (negsuc n) (pos (suc d)) h = ground arith
div_floor-by_sign (pos n) (negsuc d) h = ground arith
div_floor-by_sign (negsuc n) (pos zero) h = absurd (h refl)
div_floor-by_sign (negsuc n) (negsuc d) h = ground arith

minus-suc_add_one : (u : ℕ) → minus (suc u) +ℤ pos 1 ≡ minus u
unfolding ◌+ℤ◌
minus-suc_add_one zero = refl
minus-suc_add_one (suc u) = ground arith

minus-IsFloor :
    (n d u : ℕ)
    → n ≤ u * suc d
    → u * suc d < n + suc d
    → IsFloor (minus n) (pos (suc d)) (minus u) × IsFloor (pos n) (negsuc d) (minus u)
unfolding ◌*ℤ◌ ◌+ℤ◌
minus-IsFloor zero d zero p q = ground arith
minus-IsFloor (suc n) d zero p q = absurd (omega arith)
minus-IsFloor zero d (suc u) p q = absurd (omega arith)
minus-IsFloor (suc n) d (suc zero) p q = ground arith
minus-IsFloor (suc n) d (suc (suc u)) p q = rw (minus-suc_add_one (suc u)) (ground arith)

plus-IsFloor :
    (n d u : ℕ)
    → u * suc d ≤ n
    → n < u * suc d + suc d
    → IsFloor (pos n) (pos (suc d)) (pos u) × IsFloor (minus n) (negsuc d) (pos u)
unfolding ◌*ℤ◌ ◌+ℤ◌
plus-IsFloor zero d zero p q = ground arith
plus-IsFloor (suc n) d zero p q = ground arith
plus-IsFloor zero d (suc u) p q = absurd (omega arith)
plus-IsFloor (suc n) d (suc u) p q = ground arith

floor_by_sign-IsFloor : (n d : ℤ) → d ≢ pos 0 → IsFloor n d (floor_by_sign n d)
unfolding floor_by_sign
floor_by_sign-IsFloor n (pos zero) h = absurd (h refl)
floor_by_sign-IsFloor (pos n) (pos (suc d)) h =
    (plus-IsFloor n d (n / suc d) (div_bounds n d).0 (div_bounds n d).1).0
floor_by_sign-IsFloor (negsuc n) (negsuc d) h =
    (plus-IsFloor (suc n) d (suc n / suc d) (div_bounds (suc n) d).0 (div_bounds (suc n) d).1).1
floor_by_sign-IsFloor (pos n) (negsuc d) h =
    (minus-IsFloor n d (div_up n (suc d)) (div_up_bounds n d).0 (div_up_bounds n d).1).1
floor_by_sign-IsFloor (negsuc n) (pos (suc d)) h =
    (minus-IsFloor (suc n) d (div_up (suc n) (suc d)) (div_up_bounds (suc n) d).0
      (div_up_bounds (suc n) d).1).0

-- `divFloor` returns for every divisor but zero, and its result is the greatest integer that is not
-- above the exact quotient, whatever the signs of the operands.
pub div_floor-IsFloor : (n d : ℤ) → d ≢ pos 0 → (q : ℤ) × (div_floor n d ≡ ok q) × IsFloor n d q
div_floor-IsFloor n d h = (floor_by_sign n d, div_floor-by_sign n d h, floor_by_sign-IsFloor n d h)

-- `divCeil` is `divFloor` seen from the other side: the ceiling of `n / d` is minus the floor of
-- `-n / d`, and both throw on a zero divisor.
pub div_ceil-eq-neg_floor : (n d : ℤ) → div_ceil n d ≡ (do q ← div_floor (neg n) d; ok (neg q))
unfolding div_ceil div_floor div_trunc mod_trunc neg ◌-ℤ◌
div_ceil-eq-neg_floor (pos zero) (pos zero) = refl
div_ceil-eq-neg_floor (pos zero) (pos (suc d)) = ground arith
div_ceil-eq-neg_floor (pos zero) (negsuc d) = ground arith
div_ceil-eq-neg_floor (pos (suc n)) (pos zero) = refl
div_ceil-eq-neg_floor (pos (suc n)) (pos (suc d)) = ground arith
div_ceil-eq-neg_floor (pos (suc n)) (negsuc d) = ground arith
div_ceil-eq-neg_floor (negsuc n) (pos zero) = refl
div_ceil-eq-neg_floor (negsuc n) (pos (suc d)) = ground arith
div_ceil-eq-neg_floor (negsuc n) (negsuc d) = ground arith

-- The nearest natural to a quotient, halves up.
abbrev nearest : ℕ → ℕ → ℕ
nearest n d = if leb d (n % d * 2) then n / d + 1 else n / d

nearest_bounds :
    (n d : ℕ)
    → (2 * n < 2 * (nearest n (suc d) * suc d) + suc d)
      × (2 * (nearest n (suc d) * suc d) ≤ 2 * n + suc d)
nearest_bounds n d = elim (Bool-cases (leb (suc d) (n % suc d * 2))) [
  | inl up ↦ rw up (omega (tests, div-add-mod' n (suc d)), omega (tests, div-add-mod' n (suc d)))
  | inr down ↦
      rw down (omega (tests, div-add-mod' n (suc d)), omega (tests, div-add-mod' n (suc d)))
]

div_half_up-by_sign :
    (n d : ℤ)
    → d ≢ pos 0
    → div_half_up n d ≡ ok (signed (differ (is_neg n) (is_neg d)) (nearest (abs_ℕ n) (abs_ℕ d)))
unfolding div_half_up div_trunc mod_trunc neg ◌*ℤ◌ ◌+ℤ◌
div_half_up-by_sign n (pos zero) h = absurd (h refl)
div_half_up-by_sign (pos n) (pos (suc d)) h = ground arith
div_half_up-by_sign (pos n) (negsuc d) h = ground arith
div_half_up-by_sign (negsuc n) (pos (suc d)) h = ground arith
div_half_up-by_sign (negsuc n) (negsuc d) h = ground arith

-- `divHalfUp` returns for every divisor but zero. Its result has the sign of the exact quotient, and
-- its magnitude `m` is the nearest to it: `m - 1/2 ≤ |n| / |d| < m + 1/2`, so that halves round away
-- from zero.
pub div_half_up_nearest :
    (n d : ℤ)
    → d ≢ pos 0
    → (m : ℕ) × (div_half_up n d ≡ ok (signed (differ (is_neg n) (is_neg d)) m))
      × (2 * abs_ℕ n < 2 * (m * abs_ℕ d) + abs_ℕ d)
      × (2 * (m * abs_ℕ d) ≤ 2 * abs_ℕ n + abs_ℕ d)
div_half_up_nearest n (pos zero) h = absurd (h refl)
div_half_up_nearest n (pos (suc d)) h = (
  nearest (abs_ℕ n) (suc d),
  div_half_up-by_sign n (pos (suc d)) h,
  (nearest_bounds (abs_ℕ n) d).0,
  (nearest_bounds (abs_ℕ n) d).1,
)
div_half_up_nearest n (negsuc d) h = (
  nearest (abs_ℕ n) (suc d),
  div_half_up-by_sign n (negsuc d) h,
  (nearest_bounds (abs_ℕ n) d).0,
  (nearest_bounds (abs_ℕ n) d).1,
)
