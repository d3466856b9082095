-- ===== src/Ledger/Store.antt =====
-- The tables of the ledger (packages/database/prisma/schema.prisma): accounts, transactions and
-- entries, each in the order of its inserts. `newId` and the sequence of the entries are counters:
-- both give a value that no row has yet.
use crypto_payment.Prelude.{ℕ, String, Bool, Option, List, ◌&&◌, ◌==◌, str_eq}
use crypto_payment.Prelude.Int.{ℤ}
use crypto_payment.Ledger.Accounts.{AccountCode, AccountError, LedgerAccountType}
use crypto_payment.Money.Decimal.{MoneyError}

pub data LedgerDirection : Type 0 where
  debit credit : LedgerDirection

pub record LedgerAccount : Type 0 where
  pub id : ℕ
  pub code : AccountCode
  pub type : LedgerAccountType
  pub merchant_id : Option ℕ
  pub asset_symbol : String
  pub asset_decimals : ℕ
  pub network : String
  pub cached_balance : ℤ
  pub cached_through_seq : Option ℕ
  pub is_active : Bool

-- `credit:<network>:<transaction hash>:<transfer index>`, by its parts
pub record IdempotencyKey : Type 0 where
  pub network : String
  pub tx_hash : String
  pub transfer_index : ℕ

unfoldable pub same_key : IdempotencyKey → IdempotencyKey → Bool
same_key a b =
    str_eq a.network b.network && str_eq a.tx_hash b.tx_hash && a.transfer_index == b.transfer_index

pub record LedgerTransaction : Type 0 where
  pub id : ℕ
  pub invoice_id : ℕ
  pub token_transfer_id : ℕ
  pub idempotency_key : IdempotencyKey

pub record LedgerEntry : Type 0 where
  pub id : ℕ
  pub sequence : ℕ
  pub ledger_transaction_id : ℕ
  pub account_id : ℕ
  pub direction : LedgerDirection
  pub amount : ℤ
  pub asset_symbol : String
  pub asset_decimals : ℕ

pub record Ledger : Type 0 where
  pub accounts : List LedgerAccount
  pub transactions : List LedgerTransaction
  pub entries : List LedgerEntry
  pub next_id : ℕ
  pub next_sequence : ℕ

pub data LedgerError : Type 0 where
  gross_not_positive : LedgerError
  bad_fee_bps : ℤ → LedgerError
  money : MoneyError → LedgerError
  account : AccountError → LedgerError
  account_not_found : ℕ → LedgerError
  -- the CHECK constraint `ledger_entries_amount_positive`
  amount_not_positive : LedgerError
