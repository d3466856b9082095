-- ===== src/Payments/Matcher.antt =====
-- packages/payments/src/matcher.ts: what to do with a detected transfer.
pub mod Laws
use crypto_payment.Prelude.{Bool, true, false, not, ◌||◌, Option, none, some, String, if◌then◌else◌}
use crypto_payment.Invoice.Status.{InvoiceStatus, is_payable_status}

-- `TransferMatchStatus` of packages/shared/src/domain/transfer-status.ts
pub data TransferMatchStatus : Type 0 where
  credited pending_confirmation late_payment_review unsupported_asset : TransferMatchStatus
  below_minimum unmatched compliance_hold orphaned : TransferMatchStatus

pub data TxStatus : Type 0 where
  pending success reverted : TxStatus

pub record MatchInput : Type 0 where
  pub asset_recognized : Bool
  pub meets_minimum : Bool
  pub tx_status : TxStatus
  pub invoice_status : Option InvoiceStatus
  pub invoice_expired : Bool
  pub already_credited : Bool
  pub compliance_hold : Bool

-- The reasons that the source gives in prose; the last but one carries the state it prints.
pub data MatchReason : Type 0 where
  idempotent_replay reverted_on_chain not_allowlisted dust held no_invoice : MatchReason
  not_payable : InvoiceStatus → MatchReason
  awaiting_confirmations : MatchReason

pub record MatchDecision : Type 0 where
  pub status : TransferMatchStatus
  pub reason : MatchReason

abbrev pub decision : TransferMatchStatus → MatchReason → MatchDecision
decision status reason = record { status = status; reason = reason }

abbrev pub is_reverted : TxStatus → Bool
is_reverted reverted = true
is_reverted _ = false

-- The last two tests, on the invoice that claims the destination.
match_invoice : Bool → Option InvoiceStatus → MatchDecision
match_invoice expired none = decision unmatched no_invoice
match_invoice expired (some status) =
    if expired || not (is_payable_status status)
    then decision late_payment_review (not_payable status)
    else decision pending_confirmation awaiting_confirmations

unfoldable pub evaluate_transfer_match : MatchInput → MatchDecision
unfolding match_invoice is_payable_status
evaluate_transfer_match input =
    if input.already_credited
    then decision credited idempotent_replay
    else if is_reverted input.tx_status
    then decision unmatched reverted_on_chain
    else if not input.asset_recognized
    then decision unsupported_asset not_allowlisted
    else if not input.meets_minimum
    then decision below_minimum dust
    else if input.compliance_hold
    then decision compliance_hold held
    else match_invoice input.invoice_expired input.invoice_status
