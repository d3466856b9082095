-- ===== src/Money/Text/RoundTrip.antt =====
-- What `formatUnits` prints, `parseUnits` reads back: packages/shared/src/money/decimal.ts.
use native.Mathlib.Nat.{div-add-mod', mod-lt}
use crypto_payment.Prelude.{
  ℕ, zero, suc, ◌-◌, ◌/◌, ◌%◌, ◌^◌, ◌≤◌, Bool, true, false, none, some, [], ◌∷◌, ◌++◌, All,
  All-append, ok, le→leb, ◌==◌, length, length-append, ◌>>=◌, ◌≡◌, refl, ap, ◌∙◌, arith,
}
use crypto_payment.Prelude.Int.{
  ℤ, pos, negsuc, neg, is_neg, ◌+ℤ◌, ◌*ℤ◌, div_trunc, mod_trunc, abs_ℕ,
}
use crypto_payment.Money.Decimal.{assert_decimals, pow10, abs_units}
use crypto_payment.Money.Text.{
  Text, dot, is_empty, has_sign, unsigned, is_number, read, zeros, pad_start, parse_units, to_text,
  sign_text, format_units,
}
use crypto_payment.Money.Text.Digits.{
  IsDigit, read-to_text, to_text-IsDigit, length-to_text, to_text-not-empty, read-zeros,
  zeros-IsDigit,
}
use crypto_payment.Money.Text.Parsing.{
  IsPlain, IsPlain-of_digits, digit_not_dash, every_digit, split-whole, split-dotted, append-nil,
  length-zeros, power_positive, whole_units, with_sign, parse_signed,
}

-- A number stands at the start.
module _ (s t : Text) (ds : All IsDigit s) (some_digit : is_empty s ≡ false) where
  number_starts :
      (unsigned (s ++ t) ≡ s ++ t) × (has_sign (s ++ t) ≡ false) × (is_empty (s ++ t) ≡ false)
  number_starts = go s ds some_digit
    where
      go :
          (s : Text)
          → All IsDigit s
          → is_empty s ≡ false
          → (unsigned (s ++ t) ≡ s ++ t) × (has_sign (s ++ t) ≡ false) × (is_empty (s ++ t) ≡ false)
      go [] ds h = cc h
      go (c ∷ s) (d, ds) h = (rw (digit_not_dash c d), digit_not_dash c d, refl)

number_of_digits : (s : Text) → All IsDigit s → is_empty s ≡ false → is_number s ≡ true
number_of_digits s ds h = rw (h, every_digit s ds)

-- The sign and the magnitude of an amount.
signed_magnitude : (u : ℤ) → with_sign (is_neg u) (pos (abs_ℕ u)) ≡ u
unfolding neg
signed_magnitude (pos n) = refl
signed_magnitude (negsuc n) = refl

abs_magnitude : (u : ℤ) → abs_units u ≡ pos (abs_ℕ u)
unfolding abs_units neg
abs_magnitude (pos n) = refl
abs_magnitude (negsuc n) = refl

div_pos : (n m : ℕ) → abs_ℕ (div_trunc (pos n) (pos m)) ≡ n / m
unfolding div_trunc
div_pos n m = refl

mod_pos : (n m : ℕ) → abs_ℕ (mod_trunc (pos n) (pos m)) ≡ n % m
unfolding mod_trunc
mod_pos n m = refl

units_rejoin :
    (n d : ℕ) (whole fraction : Text)
    → read 0 whole ≡ n / 10 ^ d
    → read 0 fraction ≡ n % 10 ^ d
    → whole_units whole (some fraction) d ≡ pos n
unfolding ◌*ℤ◌ ◌+ℤ◌
units_rejoin n d whole fraction h k = rw (h, k) (ap pos (div-add-mod' n (10 ^ d)))

pad_start-length : (s : Text) (d : ℕ) → length s ≤ d → length (pad_start s d) ≡ d
pad_start-length s d h =
    omega (arith, h, length-append (zeros (d - length s)) s, length-zeros (d - length s))

long-not-empty : (s : Text) (k : ℕ) → length s ≡ suc k → is_empty s ≡ false
long-not-empty [] k h = cc h
long-not-empty (c ∷ s) k h = refl

suc_not_zero : (k : ℕ) → (suc k == 0) ≡ false
suc_not_zero k = ground arith

-- The fraction as printed: `d` digits, that read as the rest of the division.
module _ (n k : ℕ) where
  abbrev d : ℕ
  d = suc k

  abbrev fraction : Text
  fraction = pad_start (to_text (n % 10 ^ d)) d

  fraction-IsDigit : All IsDigit fraction
  fraction-IsDigit =
      All-append IsDigit (zeros (d - length (to_text (n % 10 ^ d)))) (to_text (n % 10 ^ d))
        (zeros-IsDigit _) (to_text-IsDigit (n % 10 ^ d))

  fraction_full : length fraction ≡ d
  fraction_full =
      pad_start-length (to_text (n % 10 ^ d)) d
        (length-to_text k (n % 10 ^ d) (mod-lt n (power_positive d)))

  fraction-read : read 0 fraction ≡ n % 10 ^ d
  fraction-read =
      read-zeros (d - length (to_text (n % 10 ^ d))) (to_text (n % 10 ^ d))
      ∙ read-to_text (n % 10 ^ d)

  fraction_number : is_number fraction ≡ true
  fraction_number =
      number_of_digits fraction fraction-IsDigit (long-not-empty fraction k fraction_full)

  parse_dotted :
      (negative : Bool)
      → d ≤ 36
      → parse_units (sign_text negative ++ (to_text (n / 10 ^ d) ++ (dot ∷ fraction))) d
        ≡ ok (with_sign negative (pos n))
  parse_dotted negative small =
      let whole = to_text (n / 10 ^ d) in
      let digits = to_text-IsDigit (n / 10 ^ d) in
      let some_digit = to_text-not-empty (n / 10 ^ d) in
      let (a, b, c) = number_starts whole (dot ∷ fraction) digits some_digit in
      parse_signed d small (whole ++ (dot ∷ fraction)) whole (some fraction)
        (All-append IsPlain whole (dot ∷ fraction) (IsPlain-of_digits whole digits)
          ((omega arith, omega arith), IsPlain-of_digits fraction fraction-IsDigit))
        a b c (split-dotted whole fraction digits) (number_of_digits whole digits some_digit)
        fraction_number fraction_full negative
      ∙ ap (λ v. ok (with_sign negative v))
          (units_rejoin n d whole fraction (read-to_text (n / 10 ^ d)) fraction-read)

  format_dotted :
      (units : ℤ)
      → abs_ℕ units ≡ n
      → d ≤ 36
      → format_units units d
        ≡ ok (sign_text (is_neg units) ++ (to_text (n / 10 ^ d) ++ (dot ∷ fraction)))
  unfolding format_units assert_decimals pow10
  format_dotted units size small = rw (
    suc_not_zero k,
    le→leb d 36 small,
    le→leb d 72 (omega (arith, small)),
    abs_magnitude units,
    size,
    div_pos n (10 ^ d),
    mod_pos n (10 ^ d),
  )

units_whole : (n : ℕ) (whole : Text) → read 0 whole ≡ n → whole_units whole none 0 ≡ pos n
unfolding ◌*ℤ◌ ◌+ℤ◌
units_whole n whole h = rw h (ap pos (omega arith))

parse_whole :
    (negative : Bool) (n : ℕ)
    → parse_units (sign_text negative ++ to_text n) 0 ≡ ok (with_sign negative (pos n))
parse_whole negative n =
    let whole = to_text n in
    let digits = to_text-IsDigit n in
    let some_digit = to_text-not-empty n in
    let (a, b, c) = number_starts whole [] digits some_digit in
    let same = append-nil whole in
    parse_signed 0 (omega arith) whole whole none (IsPlain-of_digits whole digits) (rw same at a)
      (rw same at b) some_digit (split-whole whole digits)
      (number_of_digits whole digits some_digit) refl refl negative
    ∙ ap (λ v. ok (with_sign negative v)) (units_whole n whole (read-to_text n))

-- For every amount and every count of decimals up to 36, what `formatUnits` prints, `parseUnits` reads
-- back as the same amount: neither throws.
pub parse-format_units :
    (units : ℤ) (decimals : ℕ)
    → decimals ≤ 36
    → (do text ← format_units units decimals; parse_units text decimals) ≡ ok units
unfolding format_units assert_decimals
parse-format_units units zero fits =
    rw (parse_whole (is_neg units) (abs_ℕ units), signed_magnitude units)
parse-format_units units (suc k) fits = rw (
  format_dotted (abs_ℕ units) k units refl fits,
  parse_dotted (abs_ℕ units) k (is_neg units) fits,
  signed_magnitude units,
)
