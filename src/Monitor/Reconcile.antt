-- ===== src/Monitor/Reconcile.antt =====
-- What apps/blockchain-monitor/src/monitor.service.ts does when the transaction of a credited transfer is
-- reorganised away.
use crypto_payment.Prelude.{ℕ, ◌+◌, true, some, [], ◌∷◌, ◌++◌, ok, ◌≡◌, refl, ◌⊎◌, arith, find}
use crypto_payment.Prelude.Int.{ℤ}
use crypto_payment.Prelude.Tx.{◌>>=◌}
use crypto_payment.Invoice.Status.{
  InvoiceStatus, paid, underpaid, overpaid, reconciliation_required,
}
use crypto_payment.Invoice.StateMachine.{
  can_transition, same_status, find_rule, same_actor, assert_transition,
}
use crypto_payment.Monitor.Store.{Db, Invoice, TokenTransfer, OrphanedCredit}
use crypto_payment.Monitor.Records.{same_invoice, read_invoice, assert_monitor, record_event}
use crypto_payment.Monitor.Follows.{At, with_update, with_update-At}
use crypto_payment.Monitor.Reorg.{
  orphan_transfer, flag_orphaned_credit, require_reconciliation, record_discrepancy,
}

abbrev SettledPayment : InvoiceStatus → Type 0
SettledPayment st = (st ≡ paid) ⊎ (st ≡ underpaid) ⊎ (st ≡ overpaid)

abbrev to_reconciliation : Invoice → Invoice
to_reconciliation i = record i { status = reconciliation_required; version = i.version + 1 }

-- What a reconciliation of the transfer `t` of the invoice `id` writes.
record Flagged (t id : ℕ) (db db' : Db) : Type 0 where
  invoices : db'.invoices ≡ (with_update id to_reconciliation db).invoices
  ledger : db'.ledger ≡ db.ledger
  transfers : db'.transfers ≡ db.transfers
  discrepancy :
      (d : OrphanedCredit) × (db'.discrepancies ≡ db.discrepancies ++ d ∷ [])
      × (d.transfer_id ≡ t)
      × (d.invoice_id ≡ id)

require_reconciliation-returns :
    (st : InvoiceStatus) (t id : ℕ) (db : Db)
    → SettledPayment st
    → (can_transition st reconciliation_required ≡ true)
      × (db' : Db) × (require_reconciliation t id st db ≡ ok (tt, db'))
      × Flagged t id db db'
unfolding require_reconciliation assert_monitor assert_transition find_rule same_status same_actor
    can_transition record_event record_discrepancy
require_reconciliation-returns paid t id db h = (
  refl,
  _,
  refl,
  record { invoices = refl; ledger = refl; transfers = refl; discrepancy = (_, refl, refl, refl) },
)
require_reconciliation-returns underpaid t id db h = (
  refl,
  _,
  refl,
  record { invoices = refl; ledger = refl; transfers = refl; discrepancy = (_, refl, refl, refl) },
)
require_reconciliation-returns overpaid t id db h = (
  refl,
  _,
  refl,
  record { invoices = refl; ledger = refl; transfers = refl; discrepancy = (_, refl, refl, refl) },
)
require_reconciliation-returns _ t id db h = absurd (ground arith)

At-found :
    (id : ℕ) (s : Db) (i : Invoice) → find (same_invoice id) s.invoices ≡ some i → At id i.status s
unfolding At
At-found id s i h = (i, h, refl)

same_invoices-At :
    (id : ℕ) (st : InvoiceStatus) (s s' : Db) → At id st s → s'.invoices ≡ s.invoices → At id st s'
unfolding At
same_invoices-At id st s s' (i, found, e) same = (i, rw same found, e)

-- The transaction of a transfer that was credited to a settled invoice is reorganised away: the call
-- returns, the invoice is moved to `RECONCILIATION_REQUIRED`, one discrepancy is opened, for this
-- transfer and this invoice, and neither the ledger nor a transfer is touched.
pub orphaned_credit_reconciled :
    (db : Db) (t : TokenTransfer) (id : ℕ) (i : Invoice) (at : ℤ)
    → t.credited_at ≡ some at
    → t.invoice_id ≡ some id
    → find (same_invoice id) db.invoices ≡ some i
    → (i.status ≡ paid) ⊎ (i.status ≡ underpaid) ⊎ (i.status ≡ overpaid)
    → (db' : Db) × (orphan_transfer t db ≡ ok (tt, db'))
      × At id reconciliation_required db'
      × (db'.ledger ≡ db.ledger)
      × (db'.transfers ≡ db.transfers)
      × ((d : OrphanedCredit) × (db'.discrepancies ≡ db.discrepancies ++ d ∷ [])
          × (d.transfer_id ≡ t.id)
          × (d.invoice_id ≡ id))
unfolding orphan_transfer flag_orphaned_credit read_invoice
orphaned_credit_reconciled db t id i at c m found st =
    let (gate, db', e, flagged) = require_reconciliation-returns i.status t.id id db st in
    let moved =
      with_update-At id to_reconciliation i.status reconciliation_required db (λ j. refl)
        (At-found id db i found) (λ j _. refl) in
    (
      db',
      rw (c, m, read_invoice, ◌>>=◌, found, gate) e,
      same_invoices-At id reconciliation_required (with_update id to_reconciliation db) db' moved
          flagged.invoices,
      flagged.ledger,
      flagged.transfers,
      flagged.discrepancy,
    )
