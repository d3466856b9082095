-- ===== src/Money/Text/Parsing.antt =====
-- `parseUnits` on a text in the form that `formatUnits` prints: packages/shared/src/money/decimal.ts.
use crypto_payment.Prelude.{
  ℕ, zero, suc, ◌-◌, ◌*◌, ◌^◌, ◌<◌, ◌≤◌, Bool, true, false, Option, none, some, [], ◌∷◌, ◌++◌, All,
  ok, leb, le→leb, ◌==◌, every, length, if◌then◌else◌, ◌≡◌, refl, ap, arith,
}
use crypto_payment.Prelude.Int.{ℤ, pos, neg, ◌+ℤ◌, ◌*ℤ◌}
use crypto_payment.Money.Decimal.{assert_decimals, pow10}
use crypto_payment.Money.Text.{
  Text, dot, dash, is_digit, is_space, is_empty, trim, trim_end, split_dot, has_sign, unsigned,
  is_number, is_fraction, matches_pattern, read, zeros, pad_end, fraction_part, to_units,
  parse_trimmed, parse_units, sign_text,
}
use crypto_payment.Money.Text.Digits.{IsDigit}

-- A digit, a sign or a dot.
abbrev pub IsPlain : ℕ → Type 0
IsPlain c = (45 ≤ c) × (c ≤ 57)

plain_not_space : (c : ℕ) → IsPlain c → is_space c ≡ false
plain_not_space c (low, high) = ground arith

trim_end-plain : (s : Text) → All IsPlain s → trim_end s ≡ s
trim_end-plain [] ps = refl
trim_end-plain (c ∷ s) (p, ps) = rw (plain_not_space c p, trim_end-plain s ps)

trim-plain : (s : Text) → All IsPlain s → trim s ≡ s
trim-plain [] ps = refl
trim-plain (c ∷ s) (p, ps) = rw (plain_not_space c p, trim_end-plain s ps, plain_not_space c p)

pub IsPlain-of_digits : (s : Text) → All IsDigit s → All IsPlain s
IsPlain-of_digits [] ds = tt
IsPlain-of_digits (c ∷ s) ((low, high), ds) = ((omega (arith, low), high), IsPlain-of_digits s ds)

digit_not_dot : (c : ℕ) → IsDigit c → (c == dot) ≡ false
digit_not_dot c (low, high) = ground arith

pub digit_not_dash : (c : ℕ) → IsDigit c → (c == dash) ≡ false
digit_not_dash c (low, high) = ground arith

pub every_digit : (s : Text) → All IsDigit s → every is_digit s ≡ true
every_digit [] ds = refl
every_digit (c ∷ s) ((low, high), ds) = rw (le→leb 48 c low, le→leb c 57 high, every_digit s ds)

pub split-whole : (s : Text) → All IsDigit s → split_dot s ≡ (s, none)
split-whole [] ds = refl
split-whole (c ∷ s) (d, ds) = rw (digit_not_dot c d, split-whole s ds)

pub split-dotted : (s t : Text) → All IsDigit s → split_dot (s ++ (dot ∷ t)) ≡ (s, some t)
split-dotted [] t ds = refl
split-dotted (c ∷ s) t (d, ds) = rw (digit_not_dot c d, split-dotted s t ds)

pub append-nil : (s : Text) → s ++ [] ≡ s
append-nil [] = refl
append-nil (c ∷ s) = ap (λ t. c ∷ t) (append-nil s)

pub length-zeros : (n : ℕ) → length (zeros n) ≡ n
length-zeros zero = refl
length-zeros (suc n) = ap suc (length-zeros n)

pub power_positive : (d : ℕ) → 0 < 10 ^ d
power_positive zero = omega arith
power_positive (suc d) = omega (arith, power_positive d)

pad_end-full : (s : Text) (d : ℕ) → length s ≡ d → pad_end s d ≡ s
pad_end-full s d h =
    let none_missing : d - length s ≡ 0 = omega (arith, h) in rw none_missing (append-nil s)

abbrev pub whole_units : Text → Option Text → ℕ → ℤ
whole_units whole fraction d =
    pos (read 0 whole) *ℤ pos (10 ^ d) +ℤ pos (read 0 (fraction_part fraction))

abbrev pub with_sign : Bool → ℤ → ℤ
with_sign negative units = if negative then neg units else units

module _ (d : ℕ) (d_fits : d ≤ 36) (body whole : Text) (fraction : Option Text)
    (plain : All IsPlain body) (no_sign : unsigned body ≡ body) (not_signed : has_sign body ≡ false)
    (some_body : is_empty body ≡ false) (parts : split_dot body ≡ (whole, fraction))
    (digits : is_number whole ≡ true) (fraction_digits : is_fraction fraction ≡ true)
    (full : length (fraction_part fraction) ≡ d) where
  body_matches : matches_pattern body ≡ true
  unfolding matches_pattern
  body_matches = rw (no_sign, parts, digits, fraction_digits)

  signed_matches : matches_pattern (dash ∷ body) ≡ true
  unfolding matches_pattern
  signed_matches = rw (parts, digits, fraction_digits)

  scale : pow10 d ≡ ok (pos (10 ^ d))
  unfolding pow10
  scale = rw (le→leb d (36 * 2) (omega (arith, d_fits)))

  decimals_ok : assert_decimals d ≡ ok tt
  unfolding assert_decimals
  decimals_ok = rw (le→leb d 36 d_fits)

  fits : leb (length (fraction_part fraction)) d ≡ true
  fits = le→leb _ d (omega (arith, full))

  units_of_parts :
      (negative : Bool)
      → to_units negative (whole, fraction) d
        ≡ ok (with_sign negative (whole_units whole fraction d))
  unfolding to_units
  units_of_parts negative = rw (fits, scale, pad_end-full (fraction_part fraction) d full)

  parse_body :
      (negative : Bool)
      → parse_trimmed (sign_text negative ++ body) d
        ≡ ok (with_sign negative (whole_units whole fraction d))
  unfolding parse_trimmed
  parse_body true = rw (signed_matches, parts, units_of_parts true)
  parse_body false = rw (some_body, body_matches, not_signed, no_sign, parts, units_of_parts false)

  signed-IsPlain : (negative : Bool) → All IsPlain (sign_text negative ++ body)
  signed-IsPlain true = ((omega arith, omega arith), plain)
  signed-IsPlain false = plain

  pub parse_signed :
      (negative : Bool)
      → parse_units (sign_text negative ++ body) d
        ≡ ok (with_sign negative (whole_units whole fraction d))
  unfolding parse_units
  parse_signed negative = rw (
    decimals_ok,
    trim-plain (sign_text negative ++ body) (signed-IsPlain negative),
    parse_body negative,
  )
