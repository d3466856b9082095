-- ===== src/Monitor/Reorg.antt =====
-- Reorganisations (apps/blockchain-monitor/src/monitor.service.ts): `handleReorg`,
-- `revertInvoiceAfterOrphan` and `flagOrphanedCredit`.
use crypto_payment.Prelude.{
  ℕ, ◌+◌, String, Bool, true, false, ◌&&◌, Option, none, some, List, [], ◌∷◌, ◌++◌, ◌==◌, ltb,
  str_eq, filter, length, update_where, if◌then◌else◌,
}
use crypto_payment.Prelude.Int.{ℤ, leb_ℤ}
use crypto_payment.Prelude.Tx.{gets, modify, pure, for_each, each_in_transaction, ◌>>=◌, ◌>>◌}
use crypto_payment.Invoice.Status.{InvoiceStatus, pending, detected, reconciliation_required}
use crypto_payment.Invoice.StateMachine.{can_transition}
use crypto_payment.Payments.Matcher.{orphaned}
use crypto_payment.Monitor.Store.{
  Db, TokenTransfer, BlockchainTransaction, ChainTxStatus, mined, confirmed, orphaned_tx, MonitorTx,
  MonitorError, new_id, reorg_reverted, orphaned_credit,
}
use crypto_payment.Monitor.Records.{
  read_invoice, update_invoice, update_transfer, assert_monitor, record_event,
}
use crypto_payment.Monitor.Settlement.{belongs_to, awaits_confirmation}

-- The count of the transfers of an invoice that still await their confirmations.
unfoldable pub remaining_transfers : ℕ → Db → ℕ
remaining_transfers invoice_id db = length (
    filter (λ t. belongs_to invoice_id t.invoice_id && awaits_confirmation t.match_status)
      db.transfers)

unfoldable pub revert_to : ℕ → InvoiceStatus → InvoiceStatus → MonitorTx (Unit {0})
revert_to invoice_id status target = do
  assert_monitor status target
  update_invoice invoice_id (λ i. record i { status = target; version = i.version + 1 })
  record_event invoice_id reorg_reverted status target none

unfoldable pub revert_invoice_after_orphan : ℕ → MonitorTx (Unit {0})
revert_invoice_after_orphan invoice_id = do
  invoice ← read_invoice invoice_id
  remaining ← gets (remaining_transfers invoice_id)
  let target = if ltb 0 remaining then detected else pending
  (if can_transition invoice.status target
      then revert_to invoice_id invoice.status target
      else pure tt)

-- `reconciliationRun.create` and `reconciliationDiscrepancy.create`
unfoldable pub record_discrepancy : ℕ → ℕ → MonitorTx (Unit {0})
record_discrepancy transfer_id invoice_id = do
  run_id ← new_id
  id ← new_id
  modify (λ db. record db {
    discrepancies =
        db.discrepancies
        ++ (record { run_id = run_id; id = id; transfer_id = transfer_id; invoice_id = invoice_id }
            ∷ []);
  })

unfoldable pub require_reconciliation : ℕ → ℕ → InvoiceStatus → MonitorTx (Unit {0})
require_reconciliation transfer_id invoice_id status = do
  assert_monitor status reconciliation_required
  update_invoice invoice_id
      (λ i. record i { status = reconciliation_required; version = i.version + 1 })
  record_event invoice_id orphaned_credit status reconciliation_required none
  record_discrepancy transfer_id invoice_id

unfoldable pub flag_orphaned_credit : ℕ → Option ℕ → MonitorTx (Unit {0})
flag_orphaned_credit transfer_id none = pure tt
flag_orphaned_credit transfer_id (some invoice_id) = do
  invoice ← read_invoice invoice_id
  (if can_transition invoice.status reconciliation_required
      then require_reconciliation transfer_id invoice_id invoice.status
      else pure tt)

unfoldable pub revert_if_matched : Option ℕ → MonitorTx (Unit {0})
revert_if_matched none = pure tt
revert_if_matched (some invoice_id) = revert_invoice_after_orphan invoice_id

unfoldable pub orphan_uncredited : TokenTransfer → MonitorTx (Unit {0})
orphan_uncredited transfer = do
  update_transfer transfer.id (λ t. record t { match_status = orphaned })
  revert_if_matched transfer.invoice_id

-- The body of the inner loop of `handleReorg`.
unfoldable pub orphan_transfer : TokenTransfer → MonitorTx (Unit {0})
orphan_transfer transfer = elim transfer.credited_at [
  | none ↦ orphan_uncredited transfer
  | some _ ↦ flag_orphaned_credit transfer.id transfer.invoice_id
]

unfoldable pub orphan_transaction : ℤ → BlockchainTransaction → MonitorTx (Unit {0})
orphan_transaction now chain_tx = do
  modify (λ db. record db {
    transactions =
        update_where (λ t. t.id == chain_tx.id)
          (λ t. record t { status = orphaned_tx; orphaned_at = some now }) db.transactions;
  })
  transfers ← gets (λ db. filter (λ t. t.transaction_id == chain_tx.id) db.transfers)
  for_each transfers orphan_transfer

abbrev pub is_mined : ChainTxStatus → Bool
is_mined mined = true
is_mined confirmed = true
is_mined _ = false

-- `blockNumber: { gte: fromBlock }`, which no null satisfies.
abbrev pub at_or_above : ℤ → Option ℤ → Bool
at_or_above from_block none = false
at_or_above from_block (some n) = leb_ℤ from_block n

unfoldable pub orphaned_transactions : String → ℤ → Db → List BlockchainTransaction
orphaned_transactions network from_block db =
    filter
      (λ t. str_eq t.network network && at_or_above from_block t.block_number && is_mined t.status)
      db.transactions

unfoldable pub handle_reorg : ℤ → String → ℤ → Db → Db × Option MonitorError
handle_reorg now network from_block db =
    each_in_transaction (orphaned_transactions network from_block db) (orphan_transaction now) db
