-- ===== src/Monitor/Records.antt =====
-- The reads and writes that the handlers of apps/blockchain-monitor/src/monitor.service.ts share, with
-- `recordEvent` and `emitWebhook`.
use crypto_payment.Prelude.{
  ℕ, ◌+◌, String, Bool, true, false, ◌&&◌, Option, none, some, [], ◌∷◌, ◌++◌, ◌==◌, find, any,
  filter, length, update_where,
}
use crypto_payment.Prelude.Tx.{gets, lift, modify, or_throw, pure, ◌>>=◌}
use crypto_payment.Invoice.Status.{
  InvoiceStatus, WebhookEventType, payment_created, payment_detected, payment_confirming,
  payment_paid, payment_underpaid, payment_overpaid, payment_expired, payment_cancelled,
  payment_refunded,
}
use crypto_payment.Invoice.StateMachine.{assert_transition, webhook_event_for_status}
use crypto_payment.Invoice.StateMachine.Table.{monitor}
use crypto_payment.Monitor.Store.{
  Invoice, TokenTransfer, MonitorTx, record_not_found, from_transition, EventType, WebhookEvent,
  new_id,
}

abbrev pub same_invoice : ℕ → Invoice → Bool
same_invoice id invoice = invoice.id == id

-- `tx.invoice.findUniqueOrThrow`
unfoldable pub read_invoice : ℕ → MonitorTx Invoice
read_invoice id = do
  found ← gets (λ db. find (same_invoice id) db.invoices)
  or_throw found (record_not_found id)

-- `tx.invoice.update`
abbrev pub update_invoice : ℕ → (Invoice → Invoice) → MonitorTx (Unit {0})
update_invoice id change =
    modify (λ db. record db { invoices = update_where (same_invoice id) change db.invoices })

-- `tx.tokenTransfer.update`
abbrev pub update_transfer : ℕ → (TokenTransfer → TokenTransfer) → MonitorTx (Unit {0})
update_transfer id change =
    modify (λ db. record db { transfers = update_where (λ t. t.id == id) change db.transfers })

-- `assertTransition(from, to, TransitionActor.MONITOR)`
unfoldable pub assert_monitor : InvoiceStatus → InvoiceStatus → MonitorTx (Unit {0})
assert_monitor from to = do
  rule ← lift (from_transition (assert_transition from to monitor))
  pure tt

-- `recordEvent`, with the actor `monitor`.
unfoldable pub record_event :
    ℕ → EventType → InvoiceStatus → InvoiceStatus → Option String → MonitorTx (Unit {0})
record_event invoice_id type from to accepted_via = do
  count ← gets (λ db. length (filter (λ e. e.invoice_id == invoice_id) db.events))
  id ← new_id
  modify (λ db. record db {
    events =
        db.events
        ++ (record {
          id = id;
          invoice_id = invoice_id;
          type = type;
          from_status = from;
          to_status = to;
          sequence = count + 1;
          accepted_via = accepted_via;
        }
            ∷ []);
  })

abbrev pub same_event : WebhookEventType → WebhookEventType → Bool
same_event payment_created payment_created = true
same_event payment_detected payment_detected = true
same_event payment_confirming payment_confirming = true
same_event payment_paid payment_paid = true
same_event payment_underpaid payment_underpaid = true
same_event payment_overpaid payment_overpaid = true
same_event payment_expired payment_expired = true
same_event payment_cancelled payment_cancelled = true
same_event payment_refunded payment_refunded = true
same_event _ _ = false

abbrev pub has_key : WebhookEventType → ℕ → WebhookEvent → Bool
has_key type invoice_id event = same_event event.type type && event.invoice_id == invoice_id

-- The `create` of the upsert; its `update` writes nothing.
unfoldable pub create_webhook : WebhookEventType → ℕ → Invoice → MonitorTx (Unit {0})
create_webhook type invoice_id invoice = do
  id ← new_id
  modify (λ db. record db {
    webhooks =
        db.webhooks
        ++ (record {
          id = id;
          merchant_id = invoice.merchant_id;
          invoice_id = invoice_id;
          type = type;
          order_id = invoice.order_id;
        }
            ∷ []);
  })

unfoldable pub upsert_webhook : Bool → WebhookEventType → ℕ → Invoice → MonitorTx (Unit {0})
upsert_webhook true type invoice_id invoice = pure tt
upsert_webhook false type invoice_id invoice = create_webhook type invoice_id invoice

unfoldable pub emit_event : ℕ → Option WebhookEventType → MonitorTx (Unit {0})
emit_event invoice_id none = pure tt
emit_event invoice_id (some type) = do
  invoice ← read_invoice invoice_id
  exists ← gets (λ db. any (has_key type invoice_id) db.webhooks)
  upsert_webhook exists type invoice_id invoice

-- `emitWebhook`
unfoldable pub emit_webhook : ℕ → InvoiceStatus → MonitorTx (Unit {0})
emit_webhook invoice_id status = emit_event invoice_id (webhook_event_for_status status)
