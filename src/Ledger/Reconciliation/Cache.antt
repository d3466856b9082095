-- ===== src/Ledger/Reconciliation/Cache.antt =====
-- When the cache agrees with the entries, for packages/ledger/src/reconciliation.ts.
use crypto_payment.Prelude.{
  Bool-cases, ℕ, Bool, true, false, not, Option, none, some, List, [], ◌∷◌, ok, filter, length,
  update_where, ◌==◌, if◌then◌else◌, ◌≡◌, inl, inr, ap, ◌↔◌, ◌⊎◌, ==_iff, find, refl,
}
use crypto_payment.Prelude.Tx.{◌>>=◌}
use crypto_payment.Prelude.Int.{ℤ, pos, pos_part, neg_part, eq_of_parts, ◌+ℤ◌, eqb_ℤ, int_laws}
use crypto_payment.Ledger.Store.{Ledger, LedgerAccount, LedgerEntry}
use crypto_payment.Ledger.Balances.{
  signed_amount, sum_entries, entries_of, is_after, get_account, compute_account_balance,
  compute_balance_delta,
}
use crypto_payment.Ledger.Accounts.{debit_increases}
use crypto_payment.Ledger.Reconciliation.{
  reconcile_account, save_cache, AccountReconciliationResult,
}

-- A plain sum over the entries.
pub balance : Bool → List LedgerEntry → ℤ
balance d [] = pos 0
balance d (e ∷ es) = signed_amount d e +ℤ balance d es

pub sum_entries-balance :
    (d : Bool) (es : List LedgerEntry) (units : ℤ) (through : Option ℕ)
    → (sum_entries d es units through).0 ≡ units +ℤ balance d es
unfolding sum_entries balance
sum_entries-balance d [] units through = omega int_laws
sum_entries-balance d (e ∷ es) units through =
    rw (sum_entries-balance d es (units +ℤ signed_amount d e) (some e.sequence)) (omega int_laws)

-- The entries up to a sequence and those after it make up the balance.
pub balance-split :
    (d : Bool) (since : Option ℕ) (es : List LedgerEntry)
    → balance d (filter (λ e. not (is_after since e)) es) +ℤ balance d (filter (is_after since) es)
      ≡ balance d es
unfolding balance
balance-split d since [] = omega int_laws
balance-split d since (e ∷ es) =
    let ih = balance-split d since es in
    elim (Bool-cases (is_after since e)) [
      | inl after ↦ rw after (omega (int_laws, ap pos_part ih, ap neg_part ih))
      | inr before ↦ rw before (omega (int_laws, ap pos_part ih, ap neg_part ih))
    ]

-- `eqb_ℤ` decides equality.
eqb_ℤ_iff : (a b : ℤ) → (eqb_ℤ a b ≡ true) ↔ (a ≡ b)
eqb_ℤ_iff a b = (λ h. eq_of_parts a b ((==_iff _ _).0 h), λ e. (==_iff _ _).1 (rw e))

module _ (id : ℕ) (s : Ledger) {a : LedgerAccount}
    (found : find (λ (b : LedgerAccount). b.id == id) s.accounts ≡ some a) where
  abbrev normal : Bool
  normal = debit_increases a.type

  -- All the entries of the account, and those that the cache has folded in.
  abbrev all_entries : List LedgerEntry
  all_entries = entries_of id s.entries

  abbrev cached_entries : List LedgerEntry
  cached_entries = filter (λ e. not (is_after a.cached_through_seq e)) all_entries

  abbrev new_entries : List LedgerEntry
  new_entries = filter (is_after a.cached_through_seq) all_entries

  abbrev refreshed : ℤ
  refreshed = a.cached_balance +ℤ (sum_entries normal new_entries (pos 0) a.cached_through_seq).0

  abbrev computed : ℤ
  computed = (sum_entries normal all_entries (pos 0) none).0

  abbrev outcome : AccountReconciliationResult
  outcome = record {
    account_id = id;
    matched = eqb_ℤ refreshed computed;
    refreshed_units = refreshed;
    computed_units = computed;
  }

  abbrev saved : Ledger
  saved =
      if eqb_ℤ refreshed computed
      then record s {
        accounts =
            update_where (λ (b : LedgerAccount). b.id == id)
              (λ b. record b {
                cached_balance = refreshed;
                cached_through_seq =
                    (sum_entries normal new_entries (pos 0) a.cached_through_seq).1;
              })
              s.accounts;
      }
      else s

  get_account-found : get_account id s ≡ ok (a, s)
  unfolding get_account
  get_account-found = rw found

  compute_balance_delta-found :
      compute_balance_delta id a.cached_through_seq s
      ≡ ok (
        record {
          delta = (sum_entries normal new_entries (pos 0) a.cached_through_seq).0;
          through_sequence = (sum_entries normal new_entries (pos 0) a.cached_through_seq).1;
        },
        s,
      )
  unfolding compute_balance_delta
  compute_balance_delta-found = rw (get_account-found, compute_balance_delta, ◌>>=◌)

  compute_account_balance-found :
      compute_account_balance id s
      ≡ ok (
        record {
          account_id = id;
          units = computed;
          asset_symbol = a.asset_symbol;
          asset_decimals = a.asset_decimals;
          through_sequence = (sum_entries normal all_entries (pos 0) none).1;
          entry_count = length all_entries;
        },
        s,
      )
  unfolding compute_account_balance
  compute_account_balance-found = rw (get_account-found, compute_account_balance, ◌>>=◌)

  reconcile_account-run : reconcile_account id s ≡ ok (outcome, saved)
  unfolding reconcile_account save_cache
  reconcile_account-run =
      rw
        (
          get_account-found, compute_balance_delta-found, compute_account_balance-found,
          reconcile_account, ◌>>=◌,
        )
        (elim (Bool-cases (eqb_ℤ refreshed computed)) [
          | inl matched ↦ rw matched
          | inr mismatch ↦ rw mismatch
        ])

  computed-balance : computed ≡ balance normal all_entries
  computed-balance = rw sum_entries-balance (omega int_laws)

  refreshed_iff : (refreshed ≡ computed) ↔ (a.cached_balance ≡ balance normal cached_entries)
  refreshed_iff =
      let new = sum_entries-balance normal new_entries (pos 0) a.cached_through_seq in
      let split = balance-split normal a.cached_through_seq all_entries in
      let total = computed-balance in
      (
        λ e. omega (
          int_laws,
          ap pos_part new,
          ap neg_part new,
          ap pos_part total,
          ap neg_part total,
          ap pos_part split,
          ap neg_part split,
          ap pos_part e,
          ap neg_part e,
        ),
        λ e. omega (
          int_laws,
          ap pos_part new,
          ap neg_part new,
          ap pos_part total,
          ap neg_part total,
          ap pos_part split,
          ap neg_part split,
          ap pos_part e,
          ap neg_part e,
        ),
      )

  matched_or_same : (b : Bool) (t : Ledger) → (b ≡ true) ⊎ ((if b then t else s) ≡ s)
  matched_or_same true t = inl refl
  matched_or_same false t = inr refl

  -- Reconciling an account that exists returns, and reports the balance of all its entries. The
  -- cache is reported as matched exactly when it holds the sum of the entries up to the sequence that
  -- it was folded through, whatever was posted since. A mismatch is never corrected: either the cache
  -- is matched, or the tables stay as they were.
  pub reconcile_matched_iff :
      (r : AccountReconciliationResult) × (s' : Ledger) × (reconcile_account id s ≡ ok (r, s'))
      × (r.computed_units ≡ balance normal all_entries)
      × ((r.matched ≡ true) ↔ (a.cached_balance ≡ balance normal cached_entries))
      × ((r.matched ≡ true) ⊎ (s' ≡ s))
  reconcile_matched_iff = (
    outcome,
    saved,
    reconcile_account-run,
    computed-balance,
    (λ h. refreshed_iff.0 ((eqb_ℤ_iff _ _).0 h), λ h. (eqb_ℤ_iff _ _).1 (refreshed_iff.1 h)),
    matched_or_same (eqb_ℤ refreshed computed) _,
  )
