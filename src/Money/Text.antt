-- ===== src/Money/Text.antt =====
-- packages/shared/src/money/decimal.ts: `parseUnits` and `formatUnits`, with the parts of the language
-- they use: `BigInt(text)`, `toString`, `trim`, `padStart` and `padEnd`. A string is the list of its
-- UTF-16 code units.
pub mod Digits
pub mod Parsing
pub mod RoundTrip
use Prim.Native.Nat.{compare, Ordering}
use crypto_payment.Prelude.{
  ℕ, zero, suc, ◌+◌, ◌-◌, ◌*◌, ◌/◌, ◌%◌, ◌^◌, Bool, true, false, not, ◌&&◌, ◌||◌, Option, none,
  some, List, [], ◌∷◌, ◌++◌, Result, ok, err, require, leb, ltb, ◌==◌, any, every, length,
  if◌then◌else◌, ◌>>=◌, ◌>>◌,
}
use crypto_payment.Prelude.Int.{ℤ, pos, neg, is_neg, ◌+ℤ◌, ◌*ℤ◌, div_trunc, mod_trunc, abs_ℕ}
use crypto_payment.Money.Decimal.{
  MoneyError, invalid_amount, too_many_places, assert_decimals, pow10, abs_units,
}

abbrev pub Text : Type 0
Text = List ℕ

abbrev pub dot : ℕ
dot = b'.'

abbrev pub dash : ℕ
dash = b'-'

-- `\d`
abbrev pub is_digit : ℕ → Bool
is_digit c = leb b'0' c && leb c b'9'

-- White space and line ends, as `trim` takes them.
abbrev pub is_space : ℕ → Bool
is_space c =
    (leb 9 c && leb c 13)
    || any (λ s. c == s) (32 ∷ 160 ∷ 5760 ∷ 8232 ∷ 8233 ∷ 8239 ∷ 8287 ∷ 12288 ∷ 65279 ∷ [])
    || (leb 8192 c && leb c 8202)

abbrev pub is_empty : Text → Bool
is_empty [] = true
is_empty (c ∷ s) = false

abbrev pub trim_start : Text → Text
trim_start [] = []
trim_start (c ∷ s) = let rest = trim_start s in if is_space c then rest else c ∷ s

abbrev pub trim_end : Text → Text
trim_end [] = []
trim_end (c ∷ s) = let rest = trim_end s in if is_space c && is_empty rest then [] else c ∷ rest

abbrev pub trim : Text → Text
trim s = trim_end (trim_start s)

-- `split('.')`: what stands before the first dot, and what stands after it.
abbrev pub split_dot : Text → Text × Option Text
split_dot [] = ([], none)
split_dot (c ∷ s) =
    let rest = split_dot s in if c == dot then ([], some s) else (c ∷ rest.0, rest.1)

abbrev pub has_sign : Text → Bool
has_sign [] = false
has_sign (c ∷ s) = c == dash

abbrev pub unsigned : Text → Text
unsigned [] = []
unsigned (c ∷ s) = if c == dash then s else c ∷ s

abbrev pub is_number : Text → Bool
is_number s = not (is_empty s) && every is_digit s

abbrev pub is_fraction : Option Text → Bool
is_fraction none = true
is_fraction (some s) = is_number s

-- `DECIMAL_PATTERN`: one sign at most, digits, and digits after a dot.
unfoldable pub matches_pattern : Text → Bool
matches_pattern s = let parts = split_dot (unsigned s) in is_number parts.0 && is_fraction parts.1

-- `BigInt(text)` of digits.
abbrev pub read : ℕ → Text → ℕ
read n [] = n
read n (c ∷ s) = read (n * 10 + (c - b'0')) s

abbrev pub zeros : ℕ → Text
zeros zero = []
zeros (suc n) = b'0' ∷ zeros n

abbrev pub pad_end : Text → ℕ → Text
pad_end s width = s ++ zeros (width - length s)

abbrev pub pad_start : Text → ℕ → Text
pad_start s width = zeros (width - length s) ++ s

abbrev pub fraction_part : Option Text → Text
fraction_part none = []
fraction_part (some s) = s

-- The units of the two parts, once the pattern has matched.
unfoldable pub to_units : Bool → Text × Option Text → ℕ → Result MoneyError ℤ
to_units negative parts decimals = do
  let fraction = fraction_part parts.1
  require (leb (length fraction) decimals) (too_many_places (length fraction) decimals)
  scale ← pow10 decimals
  let units = pos (read 0 parts.0) *ℤ scale +ℤ pos (read 0 (pad_end fraction decimals))
  ok (if negative then neg units else units)

unfoldable pub parse_trimmed : Text → ℕ → Result MoneyError ℤ
parse_trimmed trimmed decimals = do
  require (not (is_empty trimmed) && matches_pattern trimmed) invalid_amount
  to_units (has_sign trimmed) (split_dot (unsigned trimmed)) decimals

unfoldable pub parse_units : Text → ℕ → Result MoneyError ℤ
parse_units value decimals = do assert_decimals decimals; parse_trimmed (trim value) decimals

-- `toString` of a natural number, its last digit first to be found; `fuel` bounds the digits.
unfoldable pub digits : ℕ → ℕ → Text
digits zero n = []
digits (suc fuel) n = elim (compare n 10) [
  | Ordering.lt ↦ (b'0' + n) ∷ []
  | _ ↦ digits fuel (n / 10) ++ ((b'0' + n % 10) ∷ [])
]

-- A number has no more digits than its value and one.
unfoldable pub to_text : ℕ → Text
to_text n = digits (suc n) n

abbrev pub sign_text : Bool → Text
sign_text true = dash ∷ []
sign_text false = []

unfoldable pub format_units : ℤ → ℕ → Result MoneyError Text
format_units units decimals = do
  assert_decimals decimals
  (if decimals == 0 then ok (sign_text (is_neg units) ++ to_text (abs_ℕ units)) else (do
    divisor ← pow10 decimals
    let absolute = abs_units units
    let whole = to_text (abs_ℕ (div_trunc absolute divisor))
    let fraction = pad_start (to_text (abs_ℕ (mod_trunc absolute divisor))) decimals
    ok (sign_text (is_neg units) ++ (whole ++ (dot ∷ fraction)))))
