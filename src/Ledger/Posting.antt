-- ===== src/Ledger/Posting.antt =====
-- packages/ledger/src/posting.ts: the double-entry posting of a confirmed payment.
pub mod Legs
pub mod Balanced
pub mod Replay
use crypto_payment.Prelude.{
  ℕ, ◌+◌, String, Bool, true, false, not, ◌&&◌, ◌||◌, Option, none, some, List, [], ◌∷◌, ◌++◌,
  Result, ok, err, find, every, if◌then◌else◌,
}
use crypto_payment.Prelude.Int.{ℤ, pos, leb_ℤ, is_neg, is_pos}
use crypto_payment.Prelude.Tx.{Tx, pure, throw, lift, gets, modify, guard, ◌>>=◌, ◌>>◌}
use crypto_payment.Money.Decimal.{MoneyError, floor}
use crypto_payment.Money.Amount.{Money, subtract, percentage_bps}
use crypto_payment.Ledger.Accounts.{
  AccountCode, AccountError, LedgerAccountKind, merchant_holdings, merchant_payable, fee_revenue,
  ledger_account_code, ledger_account_type, same_code,
}
use crypto_payment.Ledger.Store.{
  Ledger, LedgerAccount, LedgerTransaction, LedgerEntry, LedgerDirection, debit, credit,
  IdempotencyKey, same_key, LedgerError, gross_not_positive, bad_fee_bps, money, account,
  amount_not_positive,
}

abbrev pub LedgerTx : Type 0 → Type 0
LedgerTx A = Tx Ledger LedgerError A

abbrev pub from_money : {A : Type 0} → Result MoneyError A → Result LedgerError A
from_money (ok a) = ok a
from_money (err e) = err (money e)

abbrev pub from_account : {A : Type 0} → Result AccountError A → Result LedgerError A
from_account (ok a) = ok a
from_account (err e) = err (account e)

-- `newId`
unfoldable pub new_id : LedgerTx ℕ
new_id s = ok (s.next_id, record s { next_id = s.next_id + 1 })

pub record AccountRef : Type 0 where
  pub network : String
  pub asset_symbol : String
  pub asset_decimals : ℕ

-- The `create` of `ensureAccount`.
unfoldable pub create_account : AccountCode → LedgerAccountKind → AccountRef → Option ℕ → LedgerTx ℕ
create_account code kind ref merchant_id s = ok (
  s.next_id,
  record s {
    accounts =
        s.accounts
        ++ (record {
          id = s.next_id;
          code = code;
          type = ledger_account_type kind;
          merchant_id = merchant_id;
          asset_symbol = ref.asset_symbol;
          asset_decimals = ref.asset_decimals;
          network = ref.network;
          cached_balance = pos 0;
          cached_through_seq = none;
          is_active = true;
        }
            ∷ []);
    next_id = s.next_id + 1;
  },
)

unfoldable pub find_or_create :
    Option LedgerAccount → AccountCode → LedgerAccountKind → AccountRef → Option ℕ → LedgerTx ℕ
find_or_create (some existing) code kind ref merchant_id = pure existing.id
find_or_create none code kind ref merchant_id = create_account code kind ref merchant_id

unfoldable pub ensure_account : LedgerAccountKind → AccountRef → Option ℕ → LedgerTx ℕ
unfolding find_or_create create_account
ensure_account kind ref merchant_id = do
  code ← lift (from_account (ledger_account_code kind merchant_id ref.network ref.asset_symbol))
  existing ← gets (λ s. find (λ a. same_code a.code code) s.accounts)
  find_or_create existing code kind ref merchant_id

pub record PostPaymentCreditParams : Type 0 where
  pub merchant_id : ℕ
  pub invoice_id : ℕ
  pub token_transfer_id : ℕ
  pub network : String
  pub asset_symbol : String
  pub asset_decimals : ℕ
  pub gross_amount : Money
  pub fee_bps : ℤ
  pub idempotency_key : IdempotencyKey

pub record PostingResult : Type 0 where
  pub ledger_transaction_id : ℕ
  pub already_posted : Bool
  pub gross_amount : Money
  pub fee_amount : Money
  pub net_amount : Money

-- A leg of a posting before it has its id and its sequence.
pub record Leg : Type 0 where
  pub account_id : ℕ
  pub direction : LedgerDirection
  pub amount : ℤ

abbrev entry_of : ℕ → AccountRef → Leg → ℕ → ℕ → LedgerEntry
entry_of tx_id ref leg id sequence = record {
  id = id;
  sequence = sequence;
  ledger_transaction_id = tx_id;
  account_id = leg.account_id;
  direction = leg.direction;
  amount = leg.amount;
  asset_symbol = ref.asset_symbol;
  asset_decimals = ref.asset_decimals;
}

unfoldable pub append_entries : ℕ → AccountRef → List Leg → Ledger → Ledger
append_entries tx_id ref [] s = s
append_entries tx_id ref (leg ∷ legs) s = append_entries tx_id ref legs (record s {
  entries = s.entries ++ (entry_of tx_id ref leg s.next_id s.next_sequence ∷ []);
  next_id = s.next_id + 1;
  next_sequence = s.next_sequence + 1;
})

-- `ledgerEntry.createMany`, under the CHECK constraint that every amount is positive
unfoldable pub create_entries : ℕ → AccountRef → List Leg → LedgerTx (Unit {0})
unfolding append_entries
create_entries tx_id ref legs = do
  guard (every (λ leg. is_pos leg.amount) legs) amount_not_positive
  modify (append_entries tx_id ref legs)

-- `ledgerTransaction.create`
unfoldable pub create_transaction : PostPaymentCreditParams → LedgerTx ℕ
unfolding new_id
create_transaction params = do
  id ← new_id
  modify (λ s. record s {
    transactions =
        s.transactions
        ++ (record {
          id = id;
          invoice_id = params.invoice_id;
          token_transfer_id = params.token_transfer_id;
          idempotency_key = params.idempotency_key;
        }
            ∷ []);
  })
  pure id

-- The fee leg, which is left out where the fee is 0.
unfoldable pub fee_legs : Money → AccountRef → LedgerTx (List Leg)
fee_legs fee ref =
    if is_pos fee.units
    then (do
      fee_account ← ensure_account fee_revenue ref none
      pure (record { account_id = fee_account; direction = credit; amount = fee.units } ∷ []))
    else pure []

-- What `postPaymentCredit` does when no posting has the key.
unfoldable pub post_new : PostPaymentCreditParams → LedgerTx PostingResult
post_new params = do
  fee_amount ← lift (from_money (percentage_bps params.gross_amount params.fee_bps floor))
  net_amount ← lift (from_money (subtract params.gross_amount fee_amount))
  let ref : AccountRef = record {
    network = params.network;
    asset_symbol = params.asset_symbol;
    asset_decimals = params.asset_decimals;
  }
  holdings ← ensure_account merchant_holdings ref (some params.merchant_id)
  payable ← ensure_account merchant_payable ref (some params.merchant_id)
  id ← create_transaction params
  fees ← fee_legs fee_amount ref
  create_entries id ref (
      record { account_id = holdings; direction = debit; amount = params.gross_amount.units }
      ∷ record { account_id = payable; direction = credit; amount = net_amount.units }
      ∷ fees)
  pure (record {
    ledger_transaction_id = id;
    already_posted = false;
    gross_amount = params.gross_amount;
    fee_amount = fee_amount;
    net_amount = net_amount;
  })

-- The idempotent replay, which touches no table.
unfoldable pub replay : PostPaymentCreditParams → LedgerTransaction → LedgerTx PostingResult
replay params existing = do
  fee_amount ← lift (from_money (percentage_bps params.gross_amount params.fee_bps floor))
  net_amount ← lift (from_money (subtract params.gross_amount fee_amount))
  pure (record {
    ledger_transaction_id = existing.id;
    already_posted = true;
    gross_amount = params.gross_amount;
    fee_amount = fee_amount;
    net_amount = net_amount;
  })

abbrev pub post_or_replay :
    Option LedgerTransaction → PostPaymentCreditParams → LedgerTx PostingResult
post_or_replay (some existing) params = replay params existing
post_or_replay none params = post_new params

unfoldable pub post_payment_credit : PostPaymentCreditParams → LedgerTx PostingResult
post_payment_credit params = do
  guard (is_pos params.gross_amount.units) gross_not_positive
  guard (not (is_neg params.fee_bps) && leb_ℤ params.fee_bps (pos 10000))
      (bad_fee_bps params.fee_bps)
  existing ←
      gets (λ s. find (λ t. same_key t.idempotency_key params.idempotency_key) s.transactions)
  post_or_replay existing params
