-- ===== src/Monitor/TransferRows.antt =====
-- The row of a transfer and what it is computed from, for `recordTransfer` of
-- apps/blockchain-monitor/src/monitor.service.ts.
use crypto_payment.Prelude.{
  ℕ, String, Bool, true, false, not, Option, none, some, [], ◌∷◌, ◌++◌, find,
}
use crypto_payment.Prelude.Int.{ℤ, pos, leb_ℤ}
use crypto_payment.Prelude.Tx.{lift, modify, pure, ◌>>=◌}
use crypto_payment.Assets.{AssetConfig}
use crypto_payment.Invoice.Status.{InvoiceStatus}
use crypto_payment.Payments.Evaluation.{is_within_grace}
use crypto_payment.Payments.Matcher.{MatchDecision}
use crypto_payment.Monitor.Store.{
  Db, Invoice, TokenTransfer, PaymentAddress, MonitorTx, from_payment, new_id,
}
use crypto_payment.Monitor.Records.{same_invoice, update_transfer}
use crypto_payment.Monitor.Chain.{ChainTransaction, ParsedTransfer}

-- `asset?.symbol ?? 'UNKNOWN'`, `asset?.decimals ?? 0` and the minimum of an asset
abbrev pub symbol_of : Option AssetConfig → String
symbol_of none = "UNKNOWN"
symbol_of (some asset) = asset.symbol

abbrev pub decimals_of : Option AssetConfig → ℕ
decimals_of none = 0
decimals_of (some asset) = asset.decimals

abbrev pub is_recognized : Option AssetConfig → Bool
is_recognized none = false
is_recognized (some asset) = true

abbrev pub reaches_minimum : Option AssetConfig → ℤ → Bool
reaches_minimum none amount = false
reaches_minimum (some asset) amount = leb_ℤ (pos asset.min_deposit_units) amount

-- `address?.id ?? null`, and the invoice that the address leads to.
abbrev pub address_id : Option PaymentAddress → Option ℕ
address_id none = none
address_id (some address) = some address.id

abbrev pub invoice_of_address : Option PaymentAddress → Db → Option Invoice
invoice_of_address none db = none
invoice_of_address (some address) db = elim address.invoice_id [
  | none ↦ none
  | some id ↦ find (same_invoice id) db.invoices
]

abbrev pub id_of : Option Invoice → Option ℕ
id_of none = none
id_of (some invoice) = some invoice.id

abbrev pub status_of : Option Invoice → Option InvoiceStatus
status_of none = none
status_of (some invoice) = some invoice.status

-- Expiry is judged against `expiresAt`, with the grace, not trusted from the status.
unfoldable pub has_expired : ℤ → ℤ → Option Invoice → MonitorTx Bool
has_expired grace now none = pure false
has_expired grace now (some invoice) = do
  within ← lift (from_payment (is_within_grace invoice.expires_at now grace))
  pure (not within)

-- The `data` of a transfer's row.
unfoldable pub transfer_row :
    ℕ
    → ℕ
    → Option ℤ
    → String
    → ChainTransaction
    → ParsedTransfer
    → Option AssetConfig
    → Option PaymentAddress
    → Option Invoice
    → MatchDecision
    → TokenTransfer
transfer_row id transaction_id credited_at network chain_tx transfer asset address invoice
      decision =
    record {
      id = id;
      transaction_id = transaction_id;
      network = network;
      tx_hash = chain_tx.hash;
      transfer_index = transfer.transfer_index;
      token_contract = transfer.token_contract;
      asset_symbol = symbol_of asset;
      asset_decimals = decimals_of asset;
      amount = transfer.amount;
      from_address = transfer.from_address;
      to_address = transfer.to_address;
      payment_address_id = address_id address;
      invoice_id = id_of invoice;
      match_status = decision.status;
      match_reason = decision.reason;
      confirmations = chain_tx.confirmations;
      credited_at = credited_at;
    }

-- The update of the row that exists, which leaves `transactionId` and `creditedAt`, or the create. The
-- row is its columns after the id, the transaction and `creditedAt`.
unfoldable pub write_transfer :
    Option TokenTransfer → ℕ → (ℕ → ℕ → Option ℤ → TokenTransfer) → MonitorTx (Unit {0})
write_transfer (some existing) transaction_id row =
    update_transfer existing.id (λ t. row t.id t.transaction_id t.credited_at)
write_transfer none transaction_id row = do
  id ← new_id
  modify (λ db. record db { transfers = db.transfers ++ (row id transaction_id none ∷ []) })
