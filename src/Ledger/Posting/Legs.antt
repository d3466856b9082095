-- ===== src/Ledger/Posting/Legs.antt =====
-- The steps of a posting (packages/ledger/src/posting.ts), and the tables that each leaves alone.
use mathlib.Core.List.{append-nil, append_assoc}
use crypto_payment.Prelude.{
  ℕ, ◌+◌, Option, none, some, List, [], ◌∷◌, ◌++◌, ok, ◌≡◌, refl, sym, ◌∙◌, find,
}
use crypto_payment.Prelude.Tx.{◌>>=◌}
use crypto_payment.Ledger.Accounts.{AccountCode, LedgerAccountKind, ledger_account_code, same_code}
use crypto_payment.Ledger.Store.{Ledger, LedgerAccount, LedgerEntry}
use crypto_payment.Ledger.Posting.{
  AccountRef, Leg, ensure_account, find_or_create, create_account, append_entries, entry_of,
}

-- Opening an account writes no transaction and no entry.
pub record SameBooks (s s' : Ledger) : Type 0 where
  pub entries : s'.entries ≡ s.entries
  pub transactions : s'.transactions ≡ s.transactions

pub SameBooks-trans : {s t u : Ledger} → SameBooks s t → SameBooks t u → SameBooks s u
SameBooks-trans p q = record {
  entries = q.entries ∙ p.entries;
  transactions = q.transactions ∙ p.transactions;
}

pub SameBooks-refl : (s : Ledger) → SameBooks s s
SameBooks-refl s = record { entries = refl; transactions = refl }

find_or_create-returns :
    (o : Option LedgerAccount) (code : AccountCode) (kind : LedgerAccountKind) (ref : AccountRef)
    (m : Option ℕ) (s : Ledger)
    → (id : ℕ) × (s' : Ledger) × (find_or_create o code kind ref m s ≡ ok (id, s')) × SameBooks s s'
unfolding find_or_create create_account
find_or_create-returns none code kind ref m s =
    (s.next_id, _, refl, record { entries = refl; transactions = refl })
find_or_create-returns (some a) code kind ref m s = (a.id, s, refl, SameBooks-refl s)

-- `ensureAccount` returns wherever the kind and the merchant fit.
pub ensure_account-returns :
    (kind : LedgerAccountKind) (ref : AccountRef) (m : Option ℕ) (s : Ledger) {code : AccountCode}
    → ledger_account_code kind m ref.network ref.asset_symbol ≡ ok code
    → (id : ℕ) × (s' : Ledger) × (ensure_account kind ref m s ≡ ok (id, s')) × SameBooks s s'
unfolding ensure_account
ensure_account-returns kind ref m s {code} h =
    let (id, s', e, same) =
      find_or_create-returns (find (λ (a : LedgerAccount). same_code a.code code) s.accounts) code
        kind ref m s in
    (id, s', rw (h, ensure_account, ◌>>=◌) e, same)

-- The rows that `createMany` appends.
unfoldable pub rows : ℕ → AccountRef → List Leg → ℕ → ℕ → List LedgerEntry
rows tx_id ref [] id sequence = []
rows tx_id ref (leg ∷ legs) id sequence =
    entry_of tx_id ref leg id sequence ∷ rows tx_id ref legs (id + 1) (sequence + 1)

pub append_entries-rows :
    (tx_id : ℕ) (ref : AccountRef) (legs : List Leg) (s : Ledger)
    → (append_entries tx_id ref legs s).entries
      ≡ s.entries ++ rows tx_id ref legs s.next_id s.next_sequence
unfolding append_entries rows
append_entries-rows tx_id ref [] s = sym (append-nil s.entries)
append_entries-rows tx_id ref (leg ∷ legs) s =
    append_entries-rows tx_id ref legs _
    ∙ append_assoc s.entries (entry_of tx_id ref leg s.next_id s.next_sequence ∷ []) _

pub append_entries-transactions :
    (tx_id : ℕ) (ref : AccountRef) (legs : List Leg) (s : Ledger)
    → (append_entries tx_id ref legs s).transactions ≡ s.transactions
unfolding append_entries
append_entries-transactions tx_id ref [] s = refl
append_entries-transactions tx_id ref (leg ∷ legs) s = append_entries-transactions tx_id ref legs _
