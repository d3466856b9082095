-- ===== src/Payments/Matcher/Laws.antt =====
-- What the verdicts of packages/payments/src/matcher.ts mean.
use crypto_payment.Prelude.{true, false, some, ◌≡◌, ◌≢◌, ◌↔◌, arith}
use crypto_payment.Invoice.Status.{InvoiceStatus, is_payable_status}
use crypto_payment.Payments.Matcher.{
  MatchInput, evaluate_transfer_match, credited, pending_confirmation, reverted,
}

-- A transfer is left to await confirmations exactly when every check passes: it was not credited
-- before, its transaction did not revert, its asset is recognised, its amount meets the minimum, no
-- compliance rule holds it, and an invoice claims it that has not expired and is payable.
pub pending_confirmation_iff :
    (i : MatchInput)
    → ((evaluate_transfer_match i).status ≡ pending_confirmation) ↔ (
        (i.already_credited ≡ false)
        × (i.tx_status ≢ reverted)
        × (i.asset_recognized ≡ true)
        × (i.meets_minimum ≡ true)
        × (i.compliance_hold ≡ false)
        × (i.invoice_expired ≡ false)
        × ((s : InvoiceStatus) × (i.invoice_status ≡ some s) × (is_payable_status s ≡ true)))
unfolding evaluate_transfer_match
pending_confirmation_iff i = (λ h. ground arith, λ h. ground arith)

-- A transfer that was credited keeps the verdict `CREDITED` whatever else has changed since, and no
-- other transfer gets it.
pub credited_iff :
    (i : MatchInput) → ((evaluate_transfer_match i).status ≡ credited) ↔ (i.already_credited ≡ true)
unfolding evaluate_transfer_match
credited_iff i = ground arith
