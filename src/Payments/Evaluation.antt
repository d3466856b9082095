-- ===== src/Payments/Evaluation.antt =====
-- packages/payments/src/payment-evaluation.ts: does a received amount settle an invoice, and has the
-- invoice expired. Basis points and times are JavaScript numbers that hold integers.
pub mod Classify
use crypto_payment.Prelude.{
  ℕ, ◌*◌, String, Bool, true, false, not, ◌&&◌, Option, none, some, Result, ok, err, require,
  if◌then◌else◌, ◌>>=◌, ◌>>◌,
}
use crypto_payment.Prelude.Int.{ℤ, pos, ◌+ℤ◌, ◌-ℤ◌, ◌*ℤ◌, leb_ℤ, is_neg, is_zero, is_pos}
use crypto_payment.Money.Decimal.{floor}
use crypto_payment.Money.Amount.{
  Money, same_asset, add, subtract, percentage_bps, less_than, greater_than, zero_of,
}
use crypto_payment.Invoice.Status.{InvoiceStatus, paid, underpaid, overpaid}
use crypto_payment.Payments.Errors.{
  PaymentError, not_comparable, amount_not_positive, bad_bps, negative_grace, from_money,
}

pub data PaymentOutcome : Type 0 where
  nothing exact short over : PaymentOutcome

pub record EvaluatePaymentInput : Type 0 where
  pub required : Money
  pub received : Money
  pub underpayment_tolerance_bps : Option ℤ
  pub overpayment_tolerance_bps : Option ℤ

pub record PaymentEvaluation : Type 0 where
  pub outcome : PaymentOutcome
  pub shortfall : Money
  pub excess : Money
  pub minimum_accepted : Money
  pub maximum_accepted : Money
  pub satisfies_invoice : Bool

unfoldable pub assert_comparable : Money → Money → Result PaymentError (Unit {0})
assert_comparable required received = require (same_asset required received) not_comparable

unfoldable pub validate_bps : ℤ → Result PaymentError ℤ
validate_bps value = do
  require (not (is_neg value) && leb_ℤ value (pos 10000)) (bad_bps value)
  ok value

-- `value ?? 0`
abbrev pub or_zero : Option ℤ → ℤ
or_zero none = pos 0
or_zero (some value) = value

abbrev pub is_exact : PaymentOutcome → Bool
is_exact exact = true
is_exact _ = false

unfoldable pub evaluate_payment : EvaluatePaymentInput → Result PaymentError PaymentEvaluation
evaluate_payment input = do
  let required = input.required
  let received = input.received
  assert_comparable required received
  require (is_pos required.units) amount_not_positive
  under_bps ← validate_bps (or_zero input.underpayment_tolerance_bps)
  over_bps ← validate_bps (or_zero input.overpayment_tolerance_bps)
  under_allowance ← from_money (percentage_bps required under_bps floor)
  over_allowance ← from_money (percentage_bps required over_bps floor)
  minimum_accepted ← from_money (subtract required under_allowance)
  maximum_accepted ← from_money (add required over_allowance)
  let nil = zero_of required.asset required.decimals
  is_below ← from_money (less_than received required)
  shortfall ← (if is_below then from_money (subtract required received) else ok nil)
  is_above ← from_money (greater_than received required)
  excess ← (if is_above then from_money (subtract received required) else ok nil)
  is_short ← from_money (less_than received minimum_accepted)
  is_over ← from_money (greater_than received maximum_accepted)
  let outcome =
      if is_zero received.units
      then nothing
      else if is_short
      then short
      else if is_over
      then over
      else exact
  ok (record {
    outcome = outcome;
    shortfall = shortfall;
    excess = excess;
    minimum_accepted = minimum_accepted;
    maximum_accepted = maximum_accepted;
    satisfies_invoice = is_exact outcome;
  })

unfoldable pub status_for_outcome : PaymentOutcome → Option InvoiceStatus
status_for_outcome exact = some paid
status_for_outcome short = some underpaid
status_for_outcome over = some overpaid
status_for_outcome nothing = none

pub record ExpiryDecision : Type 0 where
  pub expired : Bool
  pub remaining_ms : ℤ
  pub late_arrival : Bool

-- Times are in milliseconds since the epoch.
unfoldable pub evaluate_expiry : ℤ → ℤ → ExpiryDecision
evaluate_expiry expires_at now =
    let remaining_ms = expires_at -ℤ now in
    let expired = not (is_pos remaining_ms) in
    record { expired = expired; remaining_ms = remaining_ms; late_arrival = expired }

unfoldable pub is_within_grace : ℤ → ℤ → ℤ → Result PaymentError Bool
is_within_grace expires_at observed_at grace_seconds = do
  require (not (is_neg grace_seconds)) negative_grace
  ok (leb_ℤ observed_at (expires_at +ℤ grace_seconds *ℤ pos 1000))
