-- ===== src/Monitor/Detection.antt =====
-- Detection and matching of transfers (apps/blockchain-monitor/src/monitor.service.ts): what
-- `processTransaction` writes for a transaction and the transfers that the chain adapter returns.
use crypto_payment.Prelude.{
  ℕ, ◌+◌, String, Bool, true, false, ◌&&◌, Option, none, some, List, [], ◌∷◌, ◌==◌, str_eq, find,
  if◌then◌else◌,
}
use crypto_payment.Prelude.Int.{ℤ}
use crypto_payment.Prelude.Tx.{gets, pure, for_each, ◌>>=◌, ◌>>◌}
use crypto_payment.Assets.{resolve_transfer_asset}
use crypto_payment.Invoice.Status.{InvoiceStatus, detected, late_payment_review as late_review}
use crypto_payment.Invoice.StateMachine.{can_transition}
use crypto_payment.Payments.Matcher.{
  MatchInput, MatchDecision, evaluate_transfer_match, TransferMatchStatus, pending_confirmation,
  late_payment_review,
}
use crypto_payment.Monitor.Store.{
  Db, Invoice, TokenTransfer, PaymentAddress, MonitorTx, transfer_detected, late_arrival,
}
use crypto_payment.Monitor.Records.{update_invoice, assert_monitor, record_event, emit_webhook}
use crypto_payment.Monitor.Chain.{ChainTransaction, ParsedTransfer, record_chain_transaction}
use crypto_payment.Monitor.TransferRows.{
  is_recognized, reaches_minimum, invoice_of_address, status_of, has_expired, transfer_row,
  write_transfer,
}

-- The writes of `advanceOnFirstSighting`, once the gate has been asked.
unfoldable pub first_sighting : ℤ → ℕ → InvoiceStatus → MonitorTx (Unit {0})
first_sighting now invoice_id current_status = do
  assert_monitor current_status detected
  update_invoice invoice_id
      (λ i. record i { status = detected; detected_at = some now; version = i.version + 1 })
  record_event invoice_id transfer_detected current_status detected none
  emit_webhook invoice_id detected

unfoldable pub advance_on_first_sighting : ℤ → ℕ → InvoiceStatus → MonitorTx (Unit {0})
advance_on_first_sighting now invoice_id current_status =
    if can_transition current_status detected
    then first_sighting now invoice_id current_status
    else pure tt

unfoldable pub late_review_writes : ℕ → InvoiceStatus → MonitorTx (Unit {0})
late_review_writes invoice_id current_status = do
  assert_monitor current_status late_review
  update_invoice invoice_id (λ i. record i { status = late_review; version = i.version + 1 })
  record_event invoice_id late_arrival current_status late_review none

unfoldable pub move_to_late_payment_review : ℕ → InvoiceStatus → MonitorTx (Unit {0})
move_to_late_payment_review invoice_id current_status =
    if can_transition current_status late_review
    then late_review_writes invoice_id current_status
    else pure tt

-- The two conditional moves of the invoice.
unfoldable pub follow_decision : ℤ → Option Invoice → TransferMatchStatus → MonitorTx (Unit {0})
follow_decision now none status = pure tt
follow_decision now (some invoice) pending_confirmation =
    advance_on_first_sighting now invoice.id invoice.status
follow_decision now (some invoice) late_payment_review =
    move_to_late_payment_review invoice.id invoice.status
follow_decision now (some invoice) _ = pure tt

-- The row and the move of the invoice that a decision asks for.
unfoldable pub record_decision :
    Option TokenTransfer
    → ℤ
    → String
    → ℕ
    → ChainTransaction
    → ParsedTransfer
    → Option PaymentAddress
    → Option Invoice
    → MatchDecision
    → MonitorTx (Unit {0})
record_decision existing now network transaction_id chain_tx transfer address invoice decision = do
  write_transfer existing transaction_id (λ id tx_id credited_at.
      transfer_row id tx_id credited_at network chain_tx transfer
        (resolve_transfer_asset network transfer.token_contract) address invoice decision)
  follow_decision now invoice decision.status

unfoldable pub match_input :
    String → ChainTransaction → ParsedTransfer → Option Invoice → Bool → MatchInput
match_input network chain_tx transfer invoice invoice_expired =
    let asset = resolve_transfer_asset network transfer.token_contract in
    record {
      asset_recognized = is_recognized asset;
      meets_minimum = reaches_minimum asset transfer.amount;
      tx_status = chain_tx.status;
      invoice_status = status_of invoice;
      invoice_expired = invoice_expired;
      already_credited = false;
      compliance_hold = false;
    }

unfoldable pub record_match :
    Option TokenTransfer
    → ℤ
    → ℤ
    → String
    → ℕ
    → ChainTransaction
    → ParsedTransfer
    → Option PaymentAddress
    → Option Invoice
    → MonitorTx (Unit {0})
record_match existing grace now network transaction_id chain_tx transfer address invoice = do
  invoice_expired ← has_expired grace now invoice
  record_decision existing now network transaction_id chain_tx transfer address invoice
      (evaluate_transfer_match (match_input network chain_tx transfer invoice invoice_expired))

unfoldable pub find_address : String → String → Db → Option PaymentAddress
find_address network to_address db =
    find (λ a. str_eq a.network network && str_eq a.address_normalized to_address) db.addresses

-- `recordTransfer` for a transfer that is not credited.
unfoldable pub match_and_record :
    Option TokenTransfer
    → ℤ
    → ℤ
    → String
    → ℕ
    → ChainTransaction
    → ParsedTransfer
    → MonitorTx (Unit {0})
match_and_record existing grace now network transaction_id chain_tx transfer = do
  address ← gets (find_address network transfer.to_address)
  invoice ← gets (invoice_of_address address)
  record_match existing grace now network transaction_id chain_tx transfer address invoice

-- A transfer that is credited is left as it is.
abbrev pub is_credited : Option TokenTransfer → Bool
is_credited none = false
is_credited (some t) = elim t.credited_at [ none ↦ false | some _ ↦ true ]

unfoldable pub find_transfer : String → String → ℕ → Db → Option TokenTransfer
find_transfer network tx_hash transfer_index db =
    find
      (λ t.
        str_eq t.network network && str_eq t.tx_hash tx_hash && t.transfer_index == transfer_index)
      db.transfers

unfoldable pub record_transfer :
    ℤ → ℤ → String → ℕ → ChainTransaction → ParsedTransfer → MonitorTx (Unit {0})
record_transfer grace now network transaction_id chain_tx transfer = do
  existing ← gets (find_transfer network chain_tx.hash transfer.transfer_index)
  (if is_credited existing
      then pure tt
      else match_and_record existing grace now network transaction_id chain_tx transfer)

unfoldable pub record_all :
    ℤ → ℤ → String → ChainTransaction → List ParsedTransfer → MonitorTx (Unit {0})
record_all grace now network chain_tx transfers = do
  transaction_id ← record_chain_transaction now network chain_tx
  for_each transfers (record_transfer grace now network transaction_id chain_tx)

-- `processTransaction`, on what the adapter returns for the hash.
unfoldable pub process_transaction :
    ℤ → ℤ → String → Option ChainTransaction → List ParsedTransfer → MonitorTx (Unit {0})
process_transaction grace now network none transfers = pure tt
process_transaction grace now network (some chain_tx) [] = pure tt
process_transaction grace now network (some chain_tx) (t ∷ ts) =
    record_all grace now network chain_tx (t ∷ ts)
