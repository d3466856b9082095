-- ===== src/Examples/MonitorRuns.antt =====
-- Runs of the monitor (apps/blockchain-monitor/src/monitor.service.ts) on the sample invoice.
use crypto_payment.Prelude.{none, some, List, [], ◌∷◌, ◌++◌, ok, ◌≡◌, refl, ◌⊎◌, inl, find}
use crypto_payment.Prelude.Int.{ℤ, pos}
use crypto_payment.Invoice.Status.{
  detected, paid, reconciliation_required, compliance_review_required, payment_paid,
}
use crypto_payment.Invoice.StateMachine.Laws.{Reaches}
use crypto_payment.Monitor.Store.{Db, Invoice, OrphanedCredit}
use crypto_payment.Monitor.Records.{
  same_invoice, emit_webhook, emit_event, read_invoice, upsert_webhook, create_webhook,
}
use crypto_payment.Monitor.Follows.{IsMonitor, At}
use crypto_payment.Monitor.LedgerKept.{handle_reorg_keeps_ledger, process_transaction_keeps_ledger}
use crypto_payment.Prelude.{Result, err, arith}
use crypto_payment.Monitor.Store.{MonitorError, invalid_transition}
use crypto_payment.Monitor.Blocked.{advance_confirming_throws}
use crypto_payment.Monitor.Settlement.{advance_confirming}
use crypto_payment.Prelude.Tx.{for_each}
use crypto_payment.Monitor.TransferRows.{has_expired, write_transfer}
use crypto_payment.Monitor.Detection.{
  process_transaction, record_all, match_and_record, record_match, find_address, record_decision,
  follow_decision,
}
use crypto_payment.Monitor.Reorg.{handle_reorg, orphan_transfer}
use crypto_payment.Monitor.Runs.{Call, update, reorg, run, run_reaches, paid_invoice_survives}
use crypto_payment.Monitor.Chain.{
  ChainTransaction, ParsedTransfer, record_chain_transaction, write_chain_transaction,
}
use crypto_payment.Monitor.Detection.{record_transfer, find_transfer}
use crypto_payment.Monitor.Idempotent.{emit_webhook_once}
use crypto_payment.Payments.Matcher.{success}
use crypto_payment.Invoice.StateMachine.{InvalidTransitionError, webhook_event_for_status}
use crypto_payment.Monitor.Reconcile.{orphaned_credit_reconciled}
use crypto_payment.Examples.Samples.{
  empty_ledger, sample_db, sample_invoice, sample_transfer, credited_transfer,
}

abbrev confirm_then_reorg : List (ℤ × Call)
confirm_then_reorg = (pos 100, update (λ hash. pos 12)) ∷ (pos 200, reorg (pos 50)) ∷ []

run_reaches_example :
    (i : Invoice) × (find
        (same_invoice 1)
        (run (pos 120) "ETHEREUM" confirm_then_reorg (sample_db detected sample_transfer)).invoices
      ≡ some i)
    × Reaches IsMonitor detected i.status
run_reaches_example =
    run_reaches (pos 120) "ETHEREUM" confirm_then_reorg (sample_db detected sample_transfer) 1 refl

paid_invoice_survives_example :
    (i : Invoice) × (find
        (same_invoice 1)
        (run (pos 120) "ETHEREUM" confirm_then_reorg (sample_db paid credited_transfer)).invoices
      ≡ some i)
    × ((i.status ≡ paid) ⊎ (i.status ≡ reconciliation_required))
paid_invoice_survives_example =
    paid_invoice_survives (pos 120) "ETHEREUM" confirm_then_reorg (sample_db paid credited_transfer)
      1 refl refl

orphaned_credit_reconciled_example :
    (db' : Db) × (orphan_transfer credited_transfer (sample_db paid credited_transfer)
      ≡ ok (tt, db'))
    × At 1 reconciliation_required db'
    × (db'.ledger ≡ (sample_db paid credited_transfer).ledger)
    × (db'.transfers ≡ (sample_db paid credited_transfer).transfers)
    × ((d : OrphanedCredit) × (db'.discrepancies ≡ [] ++ d ∷ [])
        × (d.transfer_id ≡ 3)
        × (d.invoice_id ≡ 1))
orphaned_credit_reconciled_example =
    orphaned_credit_reconciled (sample_db paid credited_transfer) credited_transfer 1 _ (pos 5) refl
      refl refl (inl refl)

abbrev sample_chain_tx : ChainTransaction
sample_chain_tx = record {
  hash = "0xaa";
  block_number = some (pos 51);
  block_hash = some "0xb2";
  status = success;
  from_address = none;
  to_address = none;
  fee_amount = none;
  confirmations = pos 3;
}

abbrev sample_parsed : ParsedTransfer
sample_parsed = record {
  transfer_index = 0;
  token_contract = none;
  from_address = none;
  to_address = "0x01";
  amount = pos 1000000;
}

abbrev told_db : Db
told_db = record (sample_db paid credited_transfer) {
  webhooks =
      record { id = 10; merchant_id = 7; invoice_id = 1; type = payment_paid; order_id = "order-1" }
      ∷ [];
  next_id = 11;
}

emit_webhook_once_example : emit_webhook 1 paid told_db ≡ ok (tt, told_db)
unfolding emit_webhook webhook_event_for_status emit_event read_invoice upsert_webhook
    create_webhook
emit_webhook_once_example = emit_webhook_once 1 paid (sample_db paid credited_transfer) told_db refl

handle_reorg_keeps_ledger_example :
    (handle_reorg (pos 200) "ETHEREUM" (pos 50) (sample_db paid credited_transfer)).0.ledger
    ≡ empty_ledger
handle_reorg_keeps_ledger_example =
    handle_reorg_keeps_ledger (pos 200) "ETHEREUM" (pos 50) (sample_db paid credited_transfer)

abbrev rescanned : Result MonitorError (Unit {0} × Db)
rescanned =
    process_transaction (pos 120) (pos 300) "ETHEREUM" (some sample_chain_tx) (sample_parsed ∷ [])
      (sample_db detected sample_transfer)

abbrev store_of : Result MonitorError (Unit {0} × Db) → Db
store_of (ok (u, db)) = db
store_of (err e) = sample_db detected sample_transfer

process_transaction_keeps_ledger_example : (store_of rescanned).ledger ≡ empty_ledger
unfolding process_transaction record_all record_chain_transaction write_chain_transaction for_each
    record_transfer find_transfer match_and_record record_match has_expired find_address
    record_decision write_transfer follow_decision
process_transaction_keeps_ledger_example =
    process_transaction_keeps_ledger (pos 120) (pos 300) "ETHEREUM" (some sample_chain_tx)
      (sample_parsed ∷ []) (sample_db detected sample_transfer) (store_of rescanned) refl

advance_confirming_throws_example :
    (e : InvalidTransitionError) × (advance_confirming
        (sample_invoice compliance_review_required)
        (pos 3)
        (sample_db compliance_review_required sample_transfer)
      ≡ err (invalid_transition e))
advance_confirming_throws_example =
    advance_confirming_throws (sample_invoice compliance_review_required) (pos 3)
      (sample_db compliance_review_required sample_transfer) refl (omega arith)
