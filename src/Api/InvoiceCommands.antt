-- ===== src/Api/InvoiceCommands.antt =====
-- apps/api/src/invoices/invoices.service.ts: `loadAndMaybeExpire` and `cancelInvoice`, on the tables of the
-- monitor. The columns `expiredAt` and `cancelledAt`, the actor of an event and the status of the payment
-- address are left out; nothing here reads them. The unique key of a webhook event is its type and its
-- invoice.
use crypto_payment.Prelude.{
  ℕ, ◌+◌, Bool, true, false, ◌&&◌, Option, none, some, ok, err, any, find, ◌==◌, if◌then◌else◌,
}
use crypto_payment.Prelude.Int.{ℤ}
use crypto_payment.Prelude.Tx.{Tx, pure, throw, gets, lift, or_throw, ◌>>=◌, ◌>>◌}
use crypto_payment.Invoice.Status.{InvoiceStatus, WebhookEventType, expired, cancelled}
use crypto_payment.Invoice.StateMachine.{assert_transition, webhook_event_for_status}
use crypto_payment.Invoice.StateMachine.Table.{merchant}
use crypto_payment.Monitor.Store.{
  Db, Invoice, MonitorTx, MonitorError, from_transition, payment_status,
}
use crypto_payment.Monitor.Records.{
  read_invoice, update_invoice, record_event, has_key, create_webhook,
}
use crypto_payment.Worker.ExpirySweep.{is_overdue, expired_row, assert_expiry}

pub data ApiError : Type 0 where
  not_found : ℕ → ApiError
  unique_violation : WebhookEventType → ℕ → ApiError
  refused : MonitorError → ApiError

abbrev pub ApiTx : Type 0 → Type 0
ApiTx A = Tx Db ApiError A

abbrev pub in_db : {A : Type 0} → MonitorTx A → ApiTx A
in_db step db = elim (step db) [ ok r ↦ ok r | err e ↦ err (refused e) ]

-- `webhookEvent.create`
unfoldable pub insert_webhook : Bool → WebhookEventType → ℕ → Invoice → ApiTx (Unit {0})
insert_webhook true type id invoice = throw (unique_violation type id)
insert_webhook false type id invoice = in_db (create_webhook type id invoice)

unfoldable pub create_event : ℕ → Invoice → Option WebhookEventType → ApiTx (Unit {0})
create_event id invoice none = pure tt
create_event id invoice (some type) = do
  exists ← gets (λ db. any (has_key type id) db.webhooks)
  insert_webhook exists type id invoice

unfoldable pub expire_fresh : ℕ → Invoice → ApiTx Invoice
expire_fresh id fresh = do
  in_db (assert_expiry fresh.status)
  in_db (update_invoice id expired_row)
  in_db (record_event id (payment_status expired) fresh.status expired none)
  create_event id fresh (webhook_event_for_status expired)
  in_db (read_invoice id)

-- The test is made again on the row that the transaction reads.
unfoldable pub expire_if_overdue : ℤ → ℕ → ApiTx Invoice
expire_if_overdue now id = do
  fresh ← in_db (read_invoice id)
  (if is_overdue now fresh then expire_fresh id fresh else pure fresh)

abbrev pub owned_by : ℕ → ℕ → Invoice → Bool
owned_by merchant_id id invoice = invoice.id == id && invoice.merchant_id == merchant_id

-- `loadAndMaybeExpire`
unfoldable pub load_and_maybe_expire : ℤ → ℕ → ℕ → ApiTx Invoice
load_and_maybe_expire now merchant_id id = do
  found ← gets (λ db. find (owned_by merchant_id id) db.invoices)
  invoice ← or_throw found (not_found id)
  (if is_overdue now invoice then expire_if_overdue now id else pure invoice)

abbrev pub cancelled_row : Invoice → Invoice
cancelled_row invoice = record invoice { status = cancelled; version = invoice.version + 1 }

unfoldable pub assert_cancel : InvoiceStatus → ApiTx (Unit {0})
assert_cancel status = do
  rule ← in_db (lift (from_transition (assert_transition status cancelled merchant)))
  pure tt

-- `cancelInvoice` up to its transaction: the invoice as loaded, once the gate has let it pass.
unfoldable pub check_cancel : ℤ → ℕ → ℕ → ApiTx Invoice
check_cancel now merchant_id id = do
  invoice ← load_and_maybe_expire now merchant_id id
  assert_cancel invoice.status
  pure invoice

-- Its transaction, which runs on whatever the tables hold by then.
unfoldable pub write_cancel : ℕ → Invoice → ApiTx Invoice
write_cancel id invoice = do
  in_db (update_invoice id cancelled_row)
  in_db (record_event id (payment_status cancelled) invoice.status cancelled none)
  create_event id invoice (webhook_event_for_status cancelled)
  in_db (read_invoice id)

-- `cancelInvoice`, with no other call in between.
unfoldable pub cancel_invoice : ℤ → ℕ → ℕ → ApiTx Invoice
cancel_invoice now merchant_id id = do
  invoice ← check_cancel now merchant_id id
  write_cancel id invoice
