-- ===== src/Payments/Evaluation/Classify.antt =====
-- How `evaluatePayment` classifies an amount, without the rounding of the tolerances.
use crypto_payment.Prelude.{
  ℕ, zero, suc, ◌+◌, ◌-◌, ◌*◌, ◌/◌, ◌≤◌, ◌<◌, ◌≡◌, ◌≢◌, ◌↔◌, refl, String, true, ok, arith, tests,
  ltb, Bool-cases, inl, inr, if◌then◌else◌, Option,
}
use crypto_payment.Payments.Errors.{from_money}
use crypto_payment.Prelude.Int.{is_zero, ℤ, pos}
use crypto_payment.Money.Amount.{Money, subtract, zero_of}
use crypto_payment.Money.Natural.{
  amount, amount-same, percentage_bps-amount, subtract-amount, add-amount, less_than-amount,
  greater_than-amount, share-le, is_pos-pos,
}
use crypto_payment.Payments.Evaluation.{
  PaymentOutcome, nothing, exact, short, over, EvaluatePaymentInput, PaymentEvaluation,
  evaluate_payment, validate_bps, assert_comparable, or_zero, is_exact,
}

module _ (asset : String) (decimals : ℕ) where
  abbrev here : ℕ → Money
  here = amount asset decimals

  -- The conditional subtraction that gives the shortfall and the excess.
  difference-amount :
      (r x : ℕ)
      → (if ltb x r then from_money (subtract (here r) (here x)) else ok (zero_of asset decimals))
        ≡ ok (here (r - x))
  unfolding zero_of
  difference-amount r x = elim (Bool-cases (ltb x r)) [
    | inl below ↦ rw (below, subtract-amount asset decimals r x (omega tests))
    | inr above ↦ ground arith
  ]

  validate_bps-pos : (u : ℕ) → u ≤ 10000 → validate_bps (pos u) ≡ ok (pos u)
  unfolding validate_bps
  validate_bps-pos u h = ground arith

  abbrev verdict : (r x low high : ℕ) → PaymentOutcome
  verdict r x low high =
      if is_zero (pos x)
      then nothing
      else if ltb x low
      then short
      else if ltb high x
      then over
      else exact

  verdict_nothing : (r x low high : ℕ) → (verdict r x low high ≡ nothing) ↔ (x ≡ 0)
  verdict_nothing r zero low high = ground arith
  verdict_nothing r (suc x) low high = ground arith

  -- With an allowance of `p / 10000` units, rounded down, an amount falls short exactly when its
  -- shortfall is more than the exact fraction.
  verdict_short :
      (r x p high : ℕ)
      → p / 10000 ≤ r
      → (verdict r x (r - p / 10000) high ≡ short) ↔ (x ≢ 0) × (10000 * x + p < 10000 * r)
  verdict_short r zero p high h = ground arith
  verdict_short r (suc x) p high h = ground arith

  verdict_over :
      (r x p q : ℕ)
      → p / 10000 ≤ r
      → (verdict r x (r - p / 10000) (r + q / 10000) ≡ over) ↔ (10000 * r + q < 10000 * x)
  verdict_over r zero p q h = ground arith
  verdict_over r (suc x) p q h = ground arith

  verdict_exact :
      (r x p q : ℕ)
      → p / 10000 ≤ r
      → (is_exact (verdict r x (r - p / 10000) (r + q / 10000)) ≡ true)
        ↔ (x ≢ 0) × (10000 * r ≤ 10000 * x + p) × (10000 * x ≤ 10000 * r + q)
  verdict_exact r zero p q h = ground arith
  verdict_exact r (suc x) p q h = ground arith

  -- The result for an invoice of `r` units of which `x` have arrived.
  abbrev evaluation : (r x u o : ℕ) → PaymentEvaluation
  evaluation r x u o = record {
    outcome = verdict r x (r - r * u / 10000) (r + r * o / 10000);
    shortfall = here (r - x);
    excess = here (x - r);
    minimum_accepted = here (r - r * u / 10000);
    maximum_accepted = here (r + r * o / 10000);
    satisfies_invoice = is_exact (verdict r x (r - r * u / 10000) (r + r * o / 10000));
  }

  module _ (r x u o : ℕ) (under over_tolerance : Option ℤ) (positive : 0 < r)
      (hu : or_zero under ≡ pos u) (ho : or_zero over_tolerance ≡ pos o) (u_fits : u ≤ 10000)
      (o_fits : o ≤ 10000) where
    allowance-le : r * u / 10000 ≤ r
    allowance-le = share-le r u u_fits

    abbrev input : EvaluatePaymentInput
    input = record {
      required = here r;
      received = here x;
      underpayment_tolerance_bps = under;
      overpayment_tolerance_bps = over_tolerance;
    }

    evaluate_payment-amount : evaluate_payment input ≡ ok (evaluation r x u o)
    unfolding evaluate_payment assert_comparable
    evaluate_payment-amount = rw (
      hu,
      ho,
      amount-same asset decimals r x,
      validate_bps-pos u u_fits,
      validate_bps-pos o o_fits,
      percentage_bps-amount asset decimals r u,
      percentage_bps-amount asset decimals r o,
      subtract-amount asset decimals r (r * u / 10000) allowance-le,
      add-amount asset decimals r (r * o / 10000),
      less_than-amount asset decimals x r,
      difference-amount r x,
      greater_than-amount asset decimals x r,
      difference-amount x r,
      less_than-amount asset decimals x (r - r * u / 10000),
      greater_than-amount asset decimals x (r + r * o / 10000),
      is_pos-pos r positive,
    )

    -- For an invoice of `r > 0` units of which `x` have arrived in the same asset, with tolerances of
    -- `u` and `o` basis points (0 where none is set), the evaluation returns. Although it rounds the
    -- tolerances down, its verdict is that of exact arithmetic: nothing has arrived exactly when
    -- `x = 0`, the amount is short exactly when something arrived and `(r - x) / r > u / 10000`, it is
    -- over exactly when `(x - r) / r > o / 10000`, and it settles the invoice exactly when something
    -- arrived and neither holds. The shortfall and the excess are the differences, floored at 0.
    pub evaluate_payment_exact :
        (e : PaymentEvaluation) × (evaluate_payment input ≡ ok e)
        × ((e.outcome ≡ nothing) ↔ (x ≡ 0))
        × ((e.outcome ≡ short) ↔ (x ≢ 0) × (10000 * x + r * u < 10000 * r))
        × ((e.outcome ≡ over) ↔ (10000 * r + r * o < 10000 * x))
        × ((e.satisfies_invoice ≡ true)
            ↔ (x ≢ 0) × (10000 * r ≤ 10000 * x + r * u) × (10000 * x ≤ 10000 * r + r * o))
        × (e.shortfall ≡ here (r - x))
        × (e.excess ≡ here (x - r))
    evaluate_payment_exact = (
      evaluation r x u o,
      evaluate_payment-amount,
      verdict_nothing r x (r - r * u / 10000) (r + r * o / 10000),
      verdict_short r x (r * u) (r + r * o / 10000) allowance-le,
      verdict_over r x (r * u) (r * o) allowance-le,
      verdict_exact r x (r * u) (r * o) allowance-le,
      refl,
      refl,
    )
