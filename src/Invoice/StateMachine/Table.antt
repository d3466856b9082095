-- ===== src/Invoice/StateMachine/Table.antt =====
-- The transition table of packages/payments/src/state-machine.ts, row by row.
use crypto_payment.Prelude.{String, List, [], ◌∷◌, ◌++◌}
use crypto_payment.Invoice.Status.{
  InvoiceStatus, created, pending, detected, confirming, paid, underpaid, overpaid, expired,
  cancelled, failed, refunded, compliance_review_required, late_payment_review,
  reconciliation_required,
}

pub data TransitionActor : Type 0 where
  system monitor merchant admin compliance : TransitionActor

pub record TransitionRule : Type 0 where
  pub to : InvoiceStatus
  pub actors : List TransitionActor
  pub reason : String

abbrev pub any_internal : List TransitionActor
any_internal = system ∷ monitor ∷ []

abbrev pub human_review : List TransitionActor
human_review = admin ∷ compliance ∷ []

-- An entry of the table.
abbrev pub rule : InvoiceStatus → List TransitionActor → String → TransitionRule
rule to actors reason = record { to = to; actors = actors; reason = reason }

abbrev pub from_created : List TransitionRule
from_created =
    rule pending (system ∷ []) "payment destination assigned"
    ∷ rule cancelled (merchant ∷ admin ∷ []) "cancelled before a destination was issued"
    ∷ rule failed (system ∷ []) "no address could be assigned"
    ∷ rule compliance_review_required (human_review ++ system ∷ [])
        "screening flagged the merchant or invoice"
    ∷ []

abbrev pub from_pending : List TransitionRule
from_pending =
    rule detected (monitor ∷ []) "a matching transfer appeared on-chain"
    ∷ rule expired (system ∷ []) "expiry elapsed with no payment"
    ∷ rule cancelled (merchant ∷ admin ∷ []) "cancelled by the merchant"
    ∷ rule failed (system ∷ []) "unrecoverable processing error"
    ∷ rule compliance_review_required (human_review ++ system ∷ []) "screening flagged the invoice"
    ∷ []

abbrev pub from_detected : List TransitionRule
from_detected =
    rule confirming (monitor ∷ []) "transaction mined, confirmations accruing"
    ∷ rule pending (monitor ∷ []) "transaction dropped, replaced or orphaned before confirming"
    ∷ rule failed (system ∷ []) "unrecoverable processing error"
    ∷ rule compliance_review_required (human_review ++ monitor ∷ [])
        "the paying address was flagged"
    ∷ []

abbrev pub from_confirming : List TransitionRule
from_confirming =
    rule paid (monitor ∷ []) "confirmation threshold reached and the amount satisfies the invoice"
    ∷ rule underpaid (monitor ∷ []) "confirmed, but less than the invoiced amount was received"
    ∷ rule overpaid (monitor ∷ []) "confirmed, but more than the invoiced amount was received"
    ∷ rule detected (monitor ∷ []) "reorg reduced the confirmation count"
    ∷ rule pending (monitor ∷ []) "reorg removed the transaction entirely"
    ∷ rule failed (system ∷ []) "unrecoverable processing error"
    ∷ rule compliance_review_required (human_review ++ monitor ∷ []) "screening flagged the payment"
    ∷ rule reconciliation_required (any_internal) "chain, database and ledger disagree"
    ∷ []

abbrev pub from_paid : List TransitionRule
from_paid =
    rule refunded (system ∷ []) "an approved refund confirmed on-chain"
    ∷ rule reconciliation_required (any_internal)
        "the settling transaction was orphaned after the invoice was marked paid"
    ∷ rule compliance_review_required (human_review)
        "post-payment screening flagged the transaction"
    ∷ []

abbrev pub from_underpaid : List TransitionRule
from_underpaid =
    rule confirming (monitor ∷ []) "an additional transfer arrived and is confirming"
    ∷ rule paid (monitor ∷ admin ∷ [])
        "topped up to the full amount, or accepted under the merchant policy"
    ∷ rule expired (system ∷ []) "expiry elapsed while still short"
    ∷ rule cancelled (merchant ∷ admin ∷ []) "merchant rejected the partial payment"
    ∷ rule refunded (system ∷ []) "the partial payment was returned to the customer"
    ∷ rule failed (system ∷ []) "unrecoverable processing error"
    ∷ rule reconciliation_required (any_internal) "chain, database and ledger disagree"
    ∷ []

abbrev pub from_overpaid : List TransitionRule
from_overpaid =
    rule paid (monitor ∷ system ∷ admin ∷ [])
      "excess accepted (automatically, under ACCEPT_FULL) or credited under the merchant policy"
    ∷ rule refunded (system ∷ []) "the excess was returned to the customer"
    ∷ rule reconciliation_required (any_internal) "chain, database and ledger disagree"
    ∷ rule failed (system ∷ []) "unrecoverable processing error"
    ∷ []

abbrev pub from_expired : List TransitionRule
from_expired = rule late_payment_review (monitor ∷ []) "funds arrived after expiry" ∷ []

abbrev pub from_cancelled : List TransitionRule
from_cancelled = rule late_payment_review (monitor ∷ []) "funds arrived after cancellation" ∷ []

abbrev pub from_failed : List TransitionRule
from_failed =
    rule reconciliation_required (any_internal) "the failure left funds unaccounted for"
    ∷ rule pending (admin ∷ []) "the underlying fault was fixed and the invoice was reopened"
    ∷ []

abbrev pub from_refunded : List TransitionRule
from_refunded =
    rule reconciliation_required (any_internal) "the refund transaction was orphaned or disputed"
    ∷ []

abbrev pub from_compliance_review_required : List TransitionRule
from_compliance_review_required =
    rule pending (compliance ∷ []) "cleared before any payment arrived"
    ∷ rule confirming (compliance ∷ []) "cleared while a payment was confirming"
    ∷ rule paid (compliance ∷ []) "cleared and the payment already satisfied the invoice"
    ∷ rule cancelled (human_review) "blocked by compliance before payment"
    ∷ rule refunded (system ∷ []) "blocked by compliance and the funds were returned"
    ∷ rule failed (human_review) "blocked by compliance with no return path"
    ∷ []

abbrev pub from_late_payment_review : List TransitionRule
from_late_payment_review =
    rule paid (admin ∷ []) "the late payment was accepted by the merchant"
    ∷ rule refunded (system ∷ []) "the late payment was returned to the customer"
    ∷ rule reconciliation_required (any_internal) "the late payment could not be attributed"
    ∷ rule compliance_review_required (human_review) "the late payment was flagged by screening"
    ∷ []

abbrev pub from_reconciliation_required : List TransitionRule
from_reconciliation_required =
    rule paid (admin ∷ []) "resolved in favour of the recorded payment"
    ∷ rule underpaid (admin ∷ []) "resolved: less was actually received than recorded"
    ∷ rule overpaid (admin ∷ []) "resolved: more was actually received than recorded"
    ∷ rule expired (admin ∷ []) "resolved: no valid payment existed"
    ∷ rule refunded (admin ∷ []) "resolved by returning the funds"
    ∷ rule failed (admin ∷ []) "resolved as an unrecoverable failure"
    ∷ []

unfoldable pub transitions : InvoiceStatus → List TransitionRule
transitions created = from_created
transitions pending = from_pending
transitions detected = from_detected
transitions confirming = from_confirming
transitions paid = from_paid
transitions underpaid = from_underpaid
transitions overpaid = from_overpaid
transitions expired = from_expired
transitions cancelled = from_cancelled
transitions failed = from_failed
transitions refunded = from_refunded
transitions compliance_review_required = from_compliance_review_required
transitions late_payment_review = from_late_payment_review
transitions reconciliation_required = from_reconciliation_required
