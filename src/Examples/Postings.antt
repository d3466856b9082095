-- ===== src/Examples/Postings.antt =====
-- Postings of the sample payment, and the reconciliation of an account
-- (packages/ledger/src/posting.ts, reconciliation.ts).
use crypto_payment.Prelude.{
  ℕ, true, none, some, [], ◌∷◌, ok, err, ◌≡◌, refl, ◌↔◌, ◌⊎◌, arith, filter, not,
}
use crypto_payment.Prelude.Int.{pos}
use crypto_payment.Ledger.Accounts.{asset, debit_increases, merchant_holdings}
use crypto_payment.Ledger.Store.{Ledger, LedgerAccount, debit, amount_not_positive}
use crypto_payment.Ledger.Posting.{PostingResult, post_payment_credit}
use crypto_payment.Ledger.Posting.Balanced.{gross_of, result, Posted, post_payment_credit_balanced}
use crypto_payment.Ledger.Posting.Replay.{post_payment_credit_once, post_payment_credit_whole_fee}
use crypto_payment.Ledger.Balances.{entries_of, is_after}
use crypto_payment.Ledger.Reconciliation.{reconcile_account, AccountReconciliationResult}
use crypto_payment.Ledger.Reconciliation.Cache.{balance, reconcile_matched_iff}
use crypto_payment.Examples.Samples.{empty_ledger, sample_posting}

post_payment_credit_balanced_example :
    (s' : Ledger) × (id : ℕ) × (post_payment_credit
        (gross_of sample_posting 1000000 100)
        empty_ledger
      ≡ ok (result sample_posting 1000000 100 id, s'))
    × Posted sample_posting 1000000 100 id empty_ledger s'
post_payment_credit_balanced_example =
    post_payment_credit_balanced sample_posting 1000000 100 empty_ledger (omega arith) (omega arith)
      refl

post_payment_credit_once_example :
    (s' : Ledger) × (r : PostingResult) × (post_payment_credit
        (gross_of sample_posting 1000000 100)
        empty_ledger
      ≡ ok (r, s'))
    × (post_payment_credit (gross_of sample_posting 1000000 100) s'
        ≡ ok (record r { already_posted = true }, s'))
post_payment_credit_once_example =
    post_payment_credit_once sample_posting 1000000 100 empty_ledger (omega arith) (omega arith)
      refl

post_payment_credit_whole_fee_example :
    post_payment_credit (gross_of sample_posting 1000000 10000) empty_ledger
    ≡ err amount_not_positive
post_payment_credit_whole_fee_example =
    post_payment_credit_whole_fee sample_posting 1000000 empty_ledger (omega arith) refl

-- An account whose cache is right, with one entry that it has not folded in.
abbrev sample_account : LedgerAccount
sample_account = record {
  id = 5;
  code = record {
    kind = merchant_holdings;
    merchant_id = some 7;
    network = "ETHEREUM";
    asset_symbol = "USDT";
  };
  type = asset;
  merchant_id = some 7;
  asset_symbol = "USDT";
  asset_decimals = 6;
  network = "ETHEREUM";
  cached_balance = pos 0;
  cached_through_seq = none;
  is_active = true;
}

abbrev sample_books : Ledger
sample_books = record empty_ledger {
  accounts = sample_account ∷ [];
  entries =
      record {
        id = 1;
        sequence = 1;
        ledger_transaction_id = 1;
        account_id = 5;
        direction = debit;
        amount = pos 500;
        asset_symbol = "USDT";
        asset_decimals = 6;
      }
      ∷ [];
}

reconcile_matched_iff_example :
    (r : AccountReconciliationResult) × (s' : Ledger) × (reconcile_account 5 sample_books
      ≡ ok (r, s'))
    × (r.computed_units ≡ balance true (entries_of 5 sample_books.entries))
    × ((r.matched ≡ true) ↔ (
        pos 0
        ≡ balance true (filter (λ e. not (is_after none e)) (entries_of 5 sample_books.entries))))
    × ((r.matched ≡ true) ⊎ (s' ≡ sample_books))
unfolding debit_increases
reconcile_matched_iff_example = reconcile_matched_iff 5 sample_books refl
