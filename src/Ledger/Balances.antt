-- ===== src/Ledger/Balances.antt =====
-- packages/ledger/src/balances.ts: a balance is the sum of the entries, never the cached column.
use crypto_payment.Prelude.{
  ℕ, String, Bool, true, false, Option, none, some, List, [], ◌∷◌, find, filter, length, ltb, ◌==◌,
  if◌then◌else◌,
}
use crypto_payment.Prelude.Int.{ℤ, pos, ◌+ℤ◌, neg}
use crypto_payment.Prelude.Tx.{pure, gets, or_throw, ◌>>=◌}
use crypto_payment.Money.Amount.{Money, from_units}
use crypto_payment.Ledger.Accounts.{debit_increases}
use crypto_payment.Ledger.Store.{
  LedgerAccount, LedgerEntry, LedgerDirection, debit, credit, account_not_found,
}
use crypto_payment.Ledger.Posting.{LedgerTx}

-- `findUniqueOrThrow({ where: { id } })`
unfoldable pub get_account : ℕ → LedgerTx LedgerAccount
get_account id = do
  found ← gets (λ s. find (λ (a : LedgerAccount). a.id == id) s.accounts)
  or_throw found (account_not_found id)

abbrev pub is_debit : LedgerDirection → Bool
is_debit debit = true
is_debit credit = false

-- `(direction === 'DEBIT') === normalIsDebit ? amount : -amount`
abbrev pub signed_amount : Bool → LedgerEntry → ℤ
signed_amount true e = if is_debit e.direction then e.amount else neg e.amount
signed_amount false e = if is_debit e.direction then neg e.amount else e.amount

-- The loop of both functions, over the entries in the order of their sequence.
unfoldable pub sum_entries : Bool → List LedgerEntry → ℤ → Option ℕ → ℤ × Option ℕ
sum_entries normal_is_debit [] units through = (units, through)
sum_entries normal_is_debit (e ∷ es) units through =
    sum_entries normal_is_debit es (units +ℤ signed_amount normal_is_debit e) (some e.sequence)

-- The rows are stored in the order of their sequence, so `orderBy` keeps the order of the list.
unfoldable pub entries_of : ℕ → List LedgerEntry → List LedgerEntry
entries_of account_id = filter (λ e. e.account_id == account_id)

pub record ComputedBalance : Type 0 where
  pub account_id : ℕ
  pub units : ℤ
  pub asset_symbol : String
  pub asset_decimals : ℕ
  pub through_sequence : Option ℕ
  pub entry_count : ℕ

unfoldable pub compute_account_balance : ℕ → LedgerTx ComputedBalance
compute_account_balance account_id = do
  account ← get_account account_id
  entries ← gets (λ s. entries_of account_id s.entries)
  let sum = sum_entries (debit_increases account.type) entries (pos 0) none
  pure (record {
    account_id = account_id;
    units = sum.0;
    asset_symbol = account.asset_symbol;
    asset_decimals = account.asset_decimals;
    through_sequence = sum.1;
    entry_count = length entries;
  })

unfoldable pub to_money : ComputedBalance → Money
to_money balance = from_units balance.units balance.asset_symbol balance.asset_decimals

-- `sequence > sinceSequence`, or no condition where that is null
abbrev pub is_after : Option ℕ → LedgerEntry → Bool
is_after none e = true
is_after (some since) e = ltb since e.sequence

pub record BalanceDelta : Type 0 where
  pub delta : ℤ
  pub through_sequence : Option ℕ

unfoldable pub compute_balance_delta : ℕ → Option ℕ → LedgerTx BalanceDelta
compute_balance_delta account_id since = do
  account ← get_account account_id
  entries ← gets (λ s. filter (is_after since) (entries_of account_id s.entries))
  let sum = sum_entries (debit_increases account.type) entries (pos 0) since
  pure (record { delta = sum.0; through_sequence = sum.1 })
