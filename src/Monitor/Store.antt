-- ===== src/Monitor/Store.antt =====
-- The tables that apps/blockchain-monitor/src/monitor.service.ts reads and writes
-- (packages/database/prisma/schema.prisma), each in the order of its inserts, with the columns that it
-- uses. An amount is its number of smallest units, which a NUMERIC(78,0) column holds exactly. Times
-- are milliseconds, and one call of an operation has one `now`.
use crypto_payment.Prelude.{ℕ, ◌+◌, String, Option, List, Result, ok, err}
use crypto_payment.Prelude.Int.{ℤ}
use crypto_payment.Prelude.Tx.{Tx}
use crypto_payment.Invoice.Status.{InvoiceStatus, WebhookEventType}
use crypto_payment.Invoice.StateMachine.{InvalidTransitionError}
use crypto_payment.Payments.Errors.{PaymentError}
use crypto_payment.Payments.Matcher.{TransferMatchStatus, MatchReason}
use crypto_payment.Ledger.Store.{Ledger, LedgerError}

pub record Invoice : Type 0 where
  pub id : ℕ
  pub merchant_id : ℕ
  pub order_id : String
  pub status : InvoiceStatus
  pub network : String
  pub payment_asset : String
  pub payment_decimals : ℕ
  pub crypto_amount : ℤ
  pub received_amount : ℤ
  pub confirmed_amount : ℤ
  pub confirmation_count : ℤ
  pub required_confirmations : ℤ
  pub underpayment_tolerance_bps : ℤ
  pub overpayment_tolerance_bps : ℤ
  pub expires_at : ℤ
  pub detected_at : Option ℤ
  pub paid_at : Option ℤ
  pub version : ℕ

pub record TokenTransfer : Type 0 where
  pub id : ℕ
  pub transaction_id : ℕ
  pub network : String
  pub tx_hash : String
  pub transfer_index : ℕ
  pub token_contract : Option String
  pub asset_symbol : String
  pub asset_decimals : ℕ
  pub amount : ℤ
  pub from_address : Option String
  pub to_address : String
  pub payment_address_id : Option ℕ
  pub invoice_id : Option ℕ
  pub match_status : TransferMatchStatus
  pub match_reason : MatchReason
  pub confirmations : ℤ
  pub credited_at : Option ℤ

-- `ChainTxStatus`
pub data ChainTxStatus : Type 0 where
  mempool mined confirmed reverted_tx orphaned_tx : ChainTxStatus

pub record BlockchainTransaction : Type 0 where
  pub id : ℕ
  pub network : String
  pub tx_hash : String
  pub status : ChainTxStatus
  pub block_number : Option ℤ
  pub block_hash : Option String
  pub from_address : Option String
  pub to_address : Option String
  pub fee_amount : Option ℤ
  pub confirmations : ℤ
  pub mined_at : Option ℤ
  pub orphaned_at : Option ℤ

pub record PaymentAddress : Type 0 where
  pub id : ℕ
  pub network : String
  pub address_normalized : String
  pub invoice_id : Option ℕ

pub data UnderpaymentPolicy : Type 0 where
  reject accept_partial request_additional review_underpayment : UnderpaymentPolicy

pub data OverpaymentPolicy : Type 0 where
  accept_full credit_difference refund_difference review_overpayment : OverpaymentPolicy

pub record Merchant : Type 0 where
  pub id : ℕ
  pub underpayment_policy : UnderpaymentPolicy
  pub overpayment_policy : OverpaymentPolicy
  pub fee_bps : ℤ

-- The `type` of an event of the monitor; `payment.<state>` carries the state.
pub data EventType : Type 0 where
  transfer_detected late_arrival confirmation_started reorg_reverted orphaned_credit : EventType
  payment_status : InvoiceStatus → EventType

pub record PaymentEvent : Type 0 where
  pub id : ℕ
  pub invoice_id : ℕ
  pub type : EventType
  pub from_status : InvoiceStatus
  pub to_status : InvoiceStatus
  pub sequence : ℕ
  pub accepted_via : Option String

-- The unique `idempotencyKey` of the row is its type and its invoice.
pub record WebhookEvent : Type 0 where
  pub id : ℕ
  pub merchant_id : ℕ
  pub invoice_id : ℕ
  pub type : WebhookEventType
  pub order_id : String

-- An `ORPHANED_CREDIT` discrepancy, with the run that is opened for it.
pub record OrphanedCredit : Type 0 where
  pub run_id : ℕ
  pub id : ℕ
  pub transfer_id : ℕ
  pub invoice_id : ℕ

pub record Db : Type 0 where
  pub invoices : List Invoice
  pub transfers : List TokenTransfer
  pub transactions : List BlockchainTransaction
  pub addresses : List PaymentAddress
  pub merchants : List Merchant
  pub events : List PaymentEvent
  pub webhooks : List WebhookEvent
  pub discrepancies : List OrphanedCredit
  pub ledger : Ledger
  pub next_id : ℕ

pub data MonitorError : Type 0 where
  invalid_transition : InvalidTransitionError → MonitorError
  payment : PaymentError → MonitorError
  ledger : LedgerError → MonitorError
  record_not_found : ℕ → MonitorError

abbrev pub MonitorTx : Type 0 → Type 0
MonitorTx A = Tx Db MonitorError A

module _ {A : Type 0} where
  abbrev pub from_transition : Result InvalidTransitionError A → Result MonitorError A
  from_transition (ok a) = ok a
  from_transition (err e) = err (invalid_transition e)

  abbrev pub from_payment : Result PaymentError A → Result MonitorError A
  from_payment (ok a) = ok a
  from_payment (err e) = err (payment e)

  -- A step of the ledger, in the same database transaction.
  abbrev pub in_ledger : Tx Ledger LedgerError A → MonitorTx A
  in_ledger step db = elim (step db.ledger) [
    | ok (a, books) ↦ ok (a, record db { ledger = books })
    | err e ↦ err (ledger e)
  ]

-- `newId`
abbrev pub new_id : MonitorTx ℕ
new_id db = ok (db.next_id, record db { next_id = db.next_id + 1 })
