-- ===== src/Payments/Errors.antt =====
-- What packages/payments/src/payment-evaluation.ts and confirmations.ts throw.
use crypto_payment.Prelude.{Result, ok, err}
use crypto_payment.Prelude.Int.{ℤ}
use crypto_payment.Money.Decimal.{MoneyError}

pub data PaymentError : Type 0 where
  not_comparable amount_not_positive negative_grace negative_depth : PaymentError
  block_not_positive : PaymentError
  bad_bps bad_required bad_override : ℤ → PaymentError
  money : MoneyError → PaymentError

-- A `MoneyError` passes through.
abbrev pub from_money : {A : Type 0} → Result MoneyError A → Result PaymentError A
from_money (ok a) = ok a
from_money (err e) = err (money e)
