-- ===== src/Payments/Confirmations.antt =====
-- packages/payments/src/confirmations.ts: counting confirmations, and how far a reorganisation of the
-- chain reaches. Heights are `bigint`; the counts and depths are JavaScript numbers that hold
-- integers. `confirmationProgress` keeps its percentage abstract: it is a quotient of floats.
pub mod Laws
use Prim.Native.Char.{code}
use crypto_payment.Prelude.{
  ℕ, ◌+◌, ◌-◌, ◌^◌, String, Bool, true, false, not, ◌&&◌, Option, none, some, List, [], ◌∷◌, Result,
  ok, err, require, leb, ◌==◌, if◌then◌else◌, ◌>>=◌, ◌>>◌,
}
use crypto_payment.Prelude.Int.{ℤ, pos, ◌+ℤ◌, ◌-ℤ◌, ltb_ℤ, leb_ℤ, is_neg, is_zero, is_pos}
use crypto_payment.Payments.Errors.{
  PaymentError, block_not_positive, bad_required, bad_override, negative_depth,
}

abbrev pub max_safe_integer : ℕ
max_safe_integer = 2 ^ 53 - 1

unfoldable pub count_confirmations : ℤ → ℤ → Result PaymentError ℤ
count_confirmations block_number chain_tip = do
  require (is_pos block_number) block_not_positive
  let confirmations = chain_tip -ℤ block_number +ℤ pos 1
  ok (
      if ltb_ℤ chain_tip block_number
      then pos 0
      else if ltb_ℤ (pos max_safe_integer) confirmations
      then pos max_safe_integer
      else confirmations)

unfoldable pub is_confirmed : ℤ → ℤ → Result PaymentError Bool
is_confirmed confirmations required = do
  require (is_pos required) (bad_required required)
  ok (leb_ℤ required confirmations)

abbrev pub max_ℤ : ℤ → ℤ → ℤ
max_ℤ a b = if ltb_ℤ a b then b else a

abbrev pub min_ℤ : ℤ → ℤ → ℤ
min_ℤ a b = if ltb_ℤ b a then b else a

unfoldable pub effective_confirmations : ℤ → Option ℤ → Result PaymentError ℤ
effective_confirmations asset_default none = ok asset_default
effective_confirmations asset_default (some merchant_override) = do
  require (is_pos merchant_override) (bad_override merchant_override)
  ok (max_ℤ asset_default merchant_override)

pub record Progress : Type 0 where
  pub current : ℤ
  pub required : ℤ
  pub percent : ℤ
  pub complete : Bool

-- `percent_of current required` stands for `Math.floor((current / required) * 100)`.
unfoldable pub confirmation_progress : (ℤ → ℤ → ℤ) → ℤ → ℤ → Progress
confirmation_progress percent_of confirmations required =
    let current = max_ℤ (pos 0) (min_ℤ confirmations required) in
    record {
      current = current;
      required = required;
      percent = if is_zero required then pos 100 else percent_of current required;
      complete = leb_ℤ required confirmations;
    }

pub data ReorgVerdict : Type 0 where
  intact reorged missing : ReorgVerdict

-- `toLowerCase` on a block hash, which is hexadecimal: only the letters A to Z change.
abbrev pub lower_code : ℕ → ℕ
lower_code c = if leb b'A' c && leb c b'Z' then c + 32 else c

-- The codes of a string as it stands.
abbrev pub codes : String → List ℕ
codes String.[] = []
codes (String.◌∷◌ c s) = code c ∷ codes s

unfoldable pub to_lower_case : String → List ℕ
to_lower_case String.[] = []
to_lower_case (String.◌∷◌ c s) = lower_code (code c) ∷ to_lower_case s

abbrev pub same_codes : List ℕ → List ℕ → Bool
same_codes [] [] = true
same_codes [] (b ∷ bs) = false
same_codes (a ∷ as') [] = false
same_codes (a ∷ as') (b ∷ bs) = a == b && same_codes as' bs

unfoldable pub same_hash : String → String → Bool
same_hash a b = same_codes (to_lower_case a) (to_lower_case b)

unfoldable pub detect_reorg : String → Option String → ReorgVerdict
detect_reorg stored_block_hash none = missing
detect_reorg stored_block_hash (some current) =
    if same_hash stored_block_hash current then intact else reorged

unfoldable pub is_within_reorg_window : ℤ → ℤ → ℤ → Result PaymentError Bool
is_within_reorg_window block_number chain_tip reorg_depth = do
  require (not (is_neg reorg_depth)) negative_depth
  ok (ltb_ℤ (chain_tip -ℤ block_number) reorg_depth)

unfoldable pub reorg_rewind_target : ℤ → ℤ → ℤ → ℤ
reorg_rewind_target last_processed chain_tip reorg_depth =
    let target = chain_tip -ℤ reorg_depth in
    let floor = if ltb_ℤ target (pos 1) then pos 1 else target in
    if ltb_ℤ floor last_processed then floor else last_processed
