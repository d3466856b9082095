-- ===== src/Api/CancelRace.antt =====
-- What the transaction of `cancelInvoice` (apps/api/src/invoices/invoices.service.ts) does to an invoice
-- that has changed since it was loaded.
use crypto_payment.Prelude.{ℕ, true, false, none, some, ok, any, find, ◌≡◌, refl, ==_iff, ◌==◌}
use crypto_payment.Prelude.Tx.{◌>>=◌, ◌>>◌}
use crypto_payment.Invoice.Status.{InvoiceStatus, cancelled, payment_cancelled}
use crypto_payment.Invoice.StateMachine.{webhook_event_for_status}
use crypto_payment.Monitor.Store.{Db, Invoice, payment_status}
use crypto_payment.Monitor.Records.{
  same_invoice, read_invoice, record_event, has_key, create_webhook,
}
use crypto_payment.Monitor.Follows.{find-update_where, found-id, with_update}
use crypto_payment.Api.InvoiceCommands.{
  in_db, insert_webhook, create_event, cancelled_row, write_cancel,
}

record_cancel-ok :
    (id : ℕ) (from : InvoiceStatus) (db : Db)
    → (db' : Db) × (record_event id (payment_status cancelled) from cancelled none db
        ≡ ok (tt, db'))
      × (db'.invoices ≡ db.invoices)
      × (db'.webhooks ≡ db.webhooks)
unfolding record_event
record_cancel-ok id from db = (_, refl, refl, refl)

create_cancel-ok :
    (id : ℕ) (i : Invoice) (db : Db)
    → any (has_key payment_cancelled id) db.webhooks ≡ false
    → (db' : Db) × (create_event id i (webhook_event_for_status cancelled) db ≡ ok (tt, db'))
      × (db'.invoices ≡ db.invoices)
unfolding create_event insert_webhook create_webhook webhook_event_for_status
create_cancel-ok id i db new = rw new (_, refl, refl)

read_found :
    (id : ℕ) (i : Invoice) (db : Db)
    → find (same_invoice id) db.invoices ≡ some i
    → in_db (read_invoice id) db ≡ ok (i, db)
unfolding read_invoice
read_found id i db found = rw (in_db, ◌>>=◌, found)

-- The transaction of `cancelInvoice` asks the gate nothing: whatever the invoice's state is by then, and
-- whatever row was loaded before, the call returns and the invoice is CANCELLED, as long as it has no
-- `payment.cancelled` event yet.
pub write_cancel_overrides :
    (id : ℕ) (loaded now_there : Invoice) (db : Db)
    → find (same_invoice id) db.invoices ≡ some now_there
    → any (has_key payment_cancelled id) db.webhooks ≡ false
    → (db' : Db) × (write_cancel id loaded db ≡ ok (cancelled_row now_there, db'))
      × (find (same_invoice id) db'.invoices ≡ some (cancelled_row now_there))
unfolding write_cancel
write_cancel_overrides id loaded there db found new =
    let own : (there.id == id) ≡ true =
      (==_iff there.id id).1 (found-id id db.invoices there found) in
    let after =
      rw own at (find-update_where id id cancelled_row (λ y. refl) db.invoices there found) in
    let written = with_update id cancelled_row db in
    let (t, recorded, same, same_webhooks) = record_cancel-ok id loaded.status written in
    let (db', emitted, same') = create_cancel-ok id loaded t (rw same_webhooks new) in
    let found' : find (same_invoice id) db'.invoices ≡ some (cancelled_row there) =
      rw (same', same) after in
    (
      db',
      rw (◌>>=◌, ◌>>◌, recorded, emitted, read_found id (cancelled_row there) db' found'),
      found',
    )
