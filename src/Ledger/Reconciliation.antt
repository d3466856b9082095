-- ===== src/Ledger/Reconciliation.antt =====
-- packages/ledger/src/reconciliation.ts: the cached balance is checked against the entries.
pub mod Cache
use crypto_payment.Prelude.{
  ℕ, zero, suc, ◌+◌, Bool, true, false, not, ◌&&◌, Option, none, some, List, [], ◌∷◌, ◌++◌, Result,
  ok, err, map, filter, length, update_where, ◌==◌, if◌then◌else◌,
}
use crypto_payment.Prelude.Int.{ℤ, ◌+ℤ◌, eqb_ℤ}
use crypto_payment.Prelude.Tx.{pure, lift, gets, modify, when, or_throw, ◌>>=◌, ◌>>◌}
use crypto_payment.Ledger.Accounts.{same_id?}
use crypto_payment.Ledger.Store.{Ledger, LedgerAccount, LedgerError}
use crypto_payment.Ledger.Posting.{LedgerTx, new_id}
use crypto_payment.Ledger.Balances.{get_account, compute_account_balance, compute_balance_delta}

pub record AccountReconciliationResult : Type 0 where
  pub account_id : ℕ
  pub matched : Bool
  pub refreshed_units : ℤ
  pub computed_units : ℤ

unfoldable pub save_cache : ℕ → ℤ → Option ℕ → LedgerTx (Unit {0})
save_cache account_id units through = modify (λ s. record s {
  accounts =
      update_where (λ (a : LedgerAccount). a.id == account_id)
        (λ a. record a { cached_balance = units; cached_through_seq = through }) s.accounts;
})

unfoldable pub reconcile_account : ℕ → LedgerTx AccountReconciliationResult
reconcile_account account_id = do
  account ← get_account account_id
  change ← compute_balance_delta account_id account.cached_through_seq
  let refreshed_units = account.cached_balance +ℤ change.delta
  computed ← compute_account_balance account_id
  let matched = eqb_ℤ refreshed_units computed.units
  when matched (save_cache account_id refreshed_units change.through_sequence)
  pure (record {
    account_id = account_id;
    matched = matched;
    refreshed_units = refreshed_units;
    computed_units = computed.units;
  })

-- The row of `reconciliation_discrepancies` for a mismatch.
pub record Discrepancy : Type 0 where
  pub subject_id : ℕ
  pub expected_value : ℤ
  pub actual_value : ℤ

pub data RunStatus : Type 0 where
  clean discrepancies_found : RunStatus

pub record ReconciliationSummary : Type 0 where
  pub status : RunStatus
  pub checked_count : ℕ
  pub discrepancy_count : ℕ

abbrev pub discrepancy : AccountReconciliationResult → Discrepancy
discrepancy r = record {
  subject_id = r.account_id;
  expected_value = r.refreshed_units;
  actual_value = r.computed_units;
}

-- The loop of `runLedgerReconciliation`. It returns the count and the rows that it wrote. The
-- accounts come from the table, so that no round throws.
unfoldable pub reconcile_each : List ℕ → ℕ → List Discrepancy → LedgerTx (ℕ × List Discrepancy)
reconcile_each [] count rows s = ok ((count, rows), s)
reconcile_each (id ∷ ids) count rows s = elim (reconcile_account id s) [
  | ok (r, s') ↦
      reconcile_each ids (if r.matched then count else count + 1)
        (if r.matched then rows else rows ++ discrepancy r ∷ []) s'
  | err e ↦ err e
]

abbrev pub of_merchant : Option ℕ → LedgerAccount → Bool
of_merchant none a = true
of_merchant (some m) a = same_id? a.merchant_id (some m)

unfoldable pub run_ledger_reconciliation :
    Option ℕ → LedgerTx (ReconciliationSummary × List Discrepancy)
run_ledger_reconciliation merchant = do
  ids ← gets (λ s.
      map (λ (a : LedgerAccount). a.id)
        (filter (λ (a : LedgerAccount). a.is_active && of_merchant merchant a) s.accounts))
  found ← reconcile_each ids 0 []
  pure (
    record {
      status = if found.0 == 0 then clean else discrepancies_found;
      checked_count = length ids;
      discrepancy_count = found.0;
    },
    found.1,
  )
