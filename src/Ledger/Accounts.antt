-- ===== src/Ledger/Accounts.antt =====
-- packages/database/src/ledger-accounts.ts: the chart of accounts. An account code is a string whose
-- parts are joined by colons, and no part has a colon; here it is the record of its parts.
use crypto_payment.Prelude.{
  ℕ, String, Bool, true, false, ◌&&◌, Option, none, some, Result, ok, err, ◌==◌, str_eq,
}

pub data LedgerAccountKind : Type 0 where
  gateway_holdings merchant_holdings merchant_payable customer_inflow : LedgerAccountKind
  customer_refund fee_revenue network_fee_expense suspense : LedgerAccountKind

pub data LedgerAccountType : Type 0 where
  asset liability equity revenue expense : LedgerAccountType

unfoldable pub ledger_account_type : LedgerAccountKind → LedgerAccountType
ledger_account_type gateway_holdings = asset
ledger_account_type merchant_holdings = asset
ledger_account_type merchant_payable = liability
ledger_account_type customer_inflow = equity
ledger_account_type customer_refund = equity
ledger_account_type fee_revenue = revenue
ledger_account_type network_fee_expense = expense
ledger_account_type suspense = liability

unfoldable pub debit_increases : LedgerAccountType → Bool
debit_increases asset = true
debit_increases expense = true
debit_increases _ = false

unfoldable pub is_merchant_scoped : LedgerAccountKind → Bool
is_merchant_scoped merchant_holdings = true
is_merchant_scoped merchant_payable = true
is_merchant_scoped _ = false

pub record AccountCode : Type 0 where
  pub kind : LedgerAccountKind
  pub merchant_id : Option ℕ
  pub network : String
  pub asset_symbol : String

pub data AccountError : Type 0 where
  requires_merchant platform_wide : LedgerAccountKind → AccountError

abbrev scoped_code :
    Bool → LedgerAccountKind → Option ℕ → String → String → Result AccountError AccountCode
scoped_code true kind none network symbol = err (requires_merchant kind)
scoped_code true kind (some m) network symbol =
    ok (record { kind = kind; merchant_id = some m; network = network; asset_symbol = symbol })
scoped_code false kind (some m) network symbol = err (platform_wide kind)
scoped_code false kind none network symbol =
    ok (record { kind = kind; merchant_id = none; network = network; asset_symbol = symbol })

unfoldable pub ledger_account_code :
    LedgerAccountKind → Option ℕ → String → String → Result AccountError AccountCode
unfolding is_merchant_scoped
ledger_account_code kind merchant network symbol =
    scoped_code (is_merchant_scoped kind) kind merchant network symbol

-- The position of a kind in its declaration: equal kinds have equal positions.
unfoldable pub kind_index : LedgerAccountKind → ℕ
kind_index gateway_holdings = 0
kind_index merchant_holdings = 1
kind_index merchant_payable = 2
kind_index customer_inflow = 3
kind_index customer_refund = 4
kind_index fee_revenue = 5
kind_index network_fee_expense = 6
kind_index suspense = 7

abbrev pub same_id? : Option ℕ → Option ℕ → Bool
same_id? none none = true
same_id? none (some b) = false
same_id? (some a) none = false
same_id? (some a) (some b) = a == b

unfoldable pub same_code : AccountCode → AccountCode → Bool
unfolding kind_index
same_code a b =
    kind_index a.kind == kind_index b.kind
    && same_id? a.merchant_id b.merchant_id
    && str_eq a.network b.network
    && str_eq a.asset_symbol b.asset_symbol
