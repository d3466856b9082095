-- ===== src/Worker/ExpirySweep.antt =====
-- apps/worker/src/expiry-sweep.ts, on the tables of the monitor. Its columns `expiredAt` and `actor` are
-- for display and are left out.
use crypto_payment.Prelude.{
  ℕ, suc, ◌+◌, Bool, true, false, ◌&&◌, Option, none, some, List, [], ◌∷◌, ok, err, Result, any,
  filter, map, take, if◌then◌else◌,
}
use crypto_payment.Prelude.Int.{ℤ, leb_ℤ, ltb_ℤ}
use crypto_payment.Prelude.Tx.{pure, gets, lift, ◌>>=◌, ◌>>◌}
use crypto_payment.Invoice.Status.{InvoiceStatus, pending, underpaid, expired, WebhookEventType}
use crypto_payment.Invoice.StateMachine.{
  is_actor_allowed, assert_transition, webhook_event_for_status,
}
use crypto_payment.Invoice.StateMachine.Table.{system}
use crypto_payment.Payments.Evaluation.{evaluate_expiry}
use crypto_payment.Monitor.Store.{
  Db, Invoice, MonitorTx, MonitorError, from_transition, payment_status,
}
use crypto_payment.Monitor.Records.{
  read_invoice, update_invoice, record_event, has_key, upsert_webhook,
}

-- `SWEEPABLE_STATUSES`
abbrev pub is_sweepable : InvoiceStatus → Bool
is_sweepable pending = true
is_sweepable underpaid = true
is_sweepable _ = false

-- The test that is made again inside the transaction.
unfoldable pub is_overdue : ℤ → Invoice → Bool
is_overdue now invoice =
    is_actor_allowed invoice.status expired system
    && (evaluate_expiry invoice.expires_at now).expired

abbrev pub expired_row : Invoice → Invoice
expired_row invoice = record invoice { status = expired; version = invoice.version + 1 }

unfoldable pub assert_expiry : InvoiceStatus → MonitorTx (Unit {0})
assert_expiry status = do
  rule ← lift (from_transition (assert_transition status expired system))
  pure tt

unfoldable pub emit_expiry : ℕ → Invoice → Option WebhookEventType → MonitorTx (Unit {0})
emit_expiry id invoice none = pure tt
emit_expiry id invoice (some type) = do
  exists ← gets (λ db. any (has_key type id) db.webhooks)
  upsert_webhook exists type id invoice

unfoldable pub expire_overdue : ℕ → Invoice → MonitorTx Bool
expire_overdue id invoice = do
  assert_expiry invoice.status
  update_invoice id expired_row
  record_event id (payment_status expired) invoice.status expired none
  emit_expiry id invoice (webhook_event_for_status expired)
  pure true

unfoldable pub expire_read : ℤ → ℕ → Invoice → MonitorTx Bool
expire_read now id invoice =
    if is_overdue now invoice then expire_overdue id invoice else pure false

unfoldable pub expire_one : ℤ → ℕ → MonitorTx Bool
expire_one now id = do invoice ← read_invoice id; expire_read now id invoice

-- The candidates: the oldest deadline first.
abbrev pub is_candidate : ℤ → Invoice → Bool
is_candidate now invoice = is_sweepable invoice.status && leb_ℤ invoice.expires_at now

unfoldable pub insert_by_deadline : Invoice → List Invoice → List Invoice
insert_by_deadline i [] = i ∷ []
insert_by_deadline i (j ∷ js) =
    let rest = insert_by_deadline i js in
    if ltb_ℤ j.expires_at i.expires_at then j ∷ rest else i ∷ j ∷ js

unfoldable pub sort_by_deadline : List Invoice → List Invoice
sort_by_deadline [] = []
sort_by_deadline (i ∷ is) = insert_by_deadline i (sort_by_deadline is)

unfoldable pub candidates : ℤ → ℕ → Db → List ℕ
candidates now batch_size db =
    map (λ (i : Invoice). i.id)
      (take batch_size (sort_by_deadline (filter (is_candidate now) db.invoices)))

-- Each candidate in a transaction of its own; what one throws ends the sweep.
unfoldable pub sweep_each : ℤ → List ℕ → ℕ → Db → Db × Result MonitorError ℕ
sweep_each now [] count db = (db, ok count)
sweep_each now (id ∷ ids) count db = elim (expire_one now id db) [
  | ok (did_expire, db') ↦ sweep_each now ids (if did_expire then suc count else count) db'
  | err e ↦ (db, err e)
]

-- `sweepExpiredInvoices`
unfoldable pub sweep_expired_invoices : ℤ → ℕ → Db → Db × Result MonitorError ℕ
sweep_expired_invoices now batch_size db = sweep_each now (candidates now batch_size db) 0 db
