-- ===== src/Invoice/Status.antt =====
-- packages/shared/src/domain/invoice-status.ts: the vocabulary of invoice states.
use crypto_payment.Prelude.{Bool, true, false}

pub data InvoiceStatus : Type 0 where
  created pending detected confirming paid underpaid overpaid : InvoiceStatus
  expired cancelled failed refunded : InvoiceStatus
  compliance_review_required late_payment_review reconciliation_required : InvoiceStatus

unfoldable pub InvoiceStatus-discrete : Discrete InvoiceStatus
InvoiceStatus-discrete = hlevel

pub data WebhookEventType : Type 0 where
  payment_created payment_detected payment_confirming payment_paid : WebhookEventType
  payment_underpaid payment_overpaid payment_expired payment_cancelled : WebhookEventType
  payment_refunded : WebhookEventType

unfoldable pub is_terminal_status : InvoiceStatus → Bool
is_terminal_status paid = true
is_terminal_status expired = true
is_terminal_status cancelled = true
is_terminal_status failed = true
is_terminal_status refunded = true
is_terminal_status _ = false

unfoldable pub is_review_status : InvoiceStatus → Bool
is_review_status underpaid = true
is_review_status overpaid = true
is_review_status compliance_review_required = true
is_review_status late_payment_review = true
is_review_status reconciliation_required = true
is_review_status _ = false

unfoldable pub is_payable_status : InvoiceStatus → Bool
is_payable_status pending = true
is_payable_status detected = true
is_payable_status confirming = true
is_payable_status underpaid = true
is_payable_status _ = false
