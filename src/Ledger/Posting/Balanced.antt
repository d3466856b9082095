-- ===== src/Ledger/Posting/Balanced.antt =====
-- What a new posting (packages/ledger/src/posting.ts) writes.
use crypto_payment.Prelude.{
  ℕ, zero, suc, ◌+◌, ◌-◌, ◌*◌, ◌/◌, ◌<◌, String, true, false, none, some, List, [], ◌∷◌, ◌++◌, ok,
  ◌≡◌, refl, ap, ◌∙◌, arith, find, All, every,
}
use crypto_payment.Prelude.Int.{ℤ, pos, ◌+ℤ◌, is_pos, leb_ℤ, ◌<ℤ◌, int_laws}
use crypto_payment.Prelude.Tx.{◌>>=◌, ◌>>◌}
use crypto_payment.Money.Natural.{amount, percentage_bps-amount, subtract-amount, is_pos-pos}
use crypto_payment.Ledger.Accounts.{
  merchant_holdings, merchant_payable, fee_revenue, ledger_account_code,
}
use crypto_payment.Ledger.Store.{
  Ledger, LedgerEntry, LedgerTransaction, LedgerDirection, debit, credit, same_key,
}
use crypto_payment.Ledger.Posting.{
  AccountRef, Leg, PostPaymentCreditParams, PostingResult, post_payment_credit, post_new, fee_legs,
  create_transaction, create_entries, append_entries,
}
use crypto_payment.Ledger.Posting.Legs.{
  SameBooks, SameBooks-trans, SameBooks-refl, ensure_account-returns, rows, append_entries-rows,
  append_entries-transactions,
}

-- The sum of the amounts on one side.
abbrev pub total : LedgerDirection → List LedgerEntry → ℤ
total d [] = pos 0
total debit (e ∷ es) = elim e.direction [
  | debit ↦ e.amount +ℤ total debit es
  | credit ↦ total debit es
]
total credit (e ∷ es) = elim e.direction [
  | debit ↦ total credit es
  | credit ↦ e.amount +ℤ total credit es
]

abbrev pub IsPositive : LedgerEntry → Type 0
IsPositive e = pos 0 <ℤ e.amount

-- Legs whose rows put `n` on the credit side and nothing on the debit side.
pub record Credits (legs : List Leg) (n : ℕ) : Type 0 where
  checked : every (λ leg. is_pos leg.amount) legs ≡ true
  debits : (tx : ℕ) (ref : AccountRef) (i q : ℕ) → total debit (rows tx ref legs i q) ≡ pos 0
  credits : (tx : ℕ) (ref : AccountRef) (i q : ℕ) → total credit (rows tx ref legs i q) ≡ pos n
  positive : (tx : ℕ) (ref : AccountRef) (i q : ℕ) → All IsPositive (rows tx ref legs i q)

pos-add_zero : (n : ℕ) → pos n +ℤ pos 0 ≡ pos n
pos-add_zero n = omega int_laws

pos-add_rest : (g n : ℕ) → n < g → pos (g - n) +ℤ pos n ≡ pos g
pos-add_rest g n h = omega int_laws

one_credit :
    (account n : ℕ)
    → 0 < n
    → Credits (record { account_id = account; direction = credit; amount = pos n } ∷ []) n
unfolding rows
one_credit account n h = record {
  checked = rw (is_pos-pos n h);
  debits = λ tx ref i q. refl;
  credits = λ tx ref i q. pos-add_zero n;
  positive = λ tx ref i q. (omega arith, tt);
}

no_credit : Credits [] 0
unfolding rows
no_credit = record {
  checked = refl;
  debits = λ tx ref i q. refl;
  credits = λ tx ref i q. refl;
  positive = λ tx ref i q. tt;
}

-- `feeAmount.isPositive` decides whether there is a fee leg; either way the fee is credited.
pub fee_legs-Credits :
    (asset : String) (decimals n : ℕ) (ref : AccountRef) (s : Ledger)
    → (legs : List Leg) × (s' : Ledger) × (fee_legs (amount asset decimals n) ref s ≡ ok (legs, s'))
      × SameBooks s s'
      × Credits legs n
unfolding fee_legs ledger_account_code
fee_legs-Credits asset decimals zero ref s = ([], s, refl, SameBooks-refl s, no_credit)
fee_legs-Credits asset decimals (suc n) ref s =
    let (id, s', e, same) = ensure_account-returns fee_revenue ref none s refl in
    (_, s', rw (e, ◌>>=◌), same, one_credit id (suc n) (omega arith))

-- A credit of `g` units at a fee of `f` basis points.
module _ (p : PostPaymentCreditParams) (g f : ℕ) where
  abbrev pub gross_of : PostPaymentCreditParams
  gross_of = record p { gross_amount = amount p.asset_symbol p.asset_decimals g; fee_bps = pos f }

  abbrev pub fee : ℕ
  fee = g * f / 10000

  abbrev ref : AccountRef
  ref = record {
    network = p.network;
    asset_symbol = p.asset_symbol;
    asset_decimals = p.asset_decimals;
  }

  abbrev pub result : ℕ → PostingResult
  result id = record {
    ledger_transaction_id = id;
    already_posted = false;
    gross_amount = amount p.asset_symbol p.asset_decimals g;
    fee_amount = amount p.asset_symbol p.asset_decimals fee;
    net_amount = amount p.asset_symbol p.asset_decimals (g - fee);
  }

  -- The state after a new posting, by what it adds.
  pub record Posted (id : ℕ) (s s' : Ledger) : Type 0 where
    pub added : List LedgerEntry
    pub entries : s'.entries ≡ s.entries ++ added
    pub transactions :
        s'.transactions
        ≡ s.transactions
          ++ record {
            id = id;
            invoice_id = p.invoice_id;
            token_transfer_id = p.token_transfer_id;
            idempotency_key = p.idempotency_key;
          }
            ∷ []
    pub debits : total debit added ≡ pos g
    pub credits : total credit added ≡ pos g
    pub positive : All IsPositive added

  module _ (s : Ledger) (positive : 0 < g) (fits : f < 10000) where
    fee-lt : fee < g
    fee-lt = let bound : g * f < g * 10000 = grind arith in omega arith

    abbrev transaction : ℕ → LedgerTransaction
    transaction id = record {
      id = id;
      invoice_id = p.invoice_id;
      token_transfer_id = p.token_transfer_id;
      idempotency_key = p.idempotency_key;
    }

    -- The debit of the gross, the credit of the net, and the fee.
    abbrev legs_of : ℕ → ℕ → List Leg → List Leg
    legs_of holdings payable fees =
        record { account_id = holdings; direction = debit; amount = pos g }
        ∷ record { account_id = payable; direction = credit; amount = pos (g - fee) }
        ∷ fees

    written-Posted :
        (id holdings payable : ℕ) {fees : List Leg} {t t' : Ledger}
        → t.entries ≡ s.entries
        → t.transactions ≡ s.transactions ++ transaction id ∷ []
        → SameBooks t t'
        → Credits fees fee
        → Posted id s (append_entries id ref (legs_of holdings payable fees) t')
    unfolding rows
    written-Posted id holdings payable {fees = fees} {t' = t'} old new same fee_credit = record {
      added = rows id ref (legs_of holdings payable fees) t'.next_id t'.next_sequence;
      entries =
          append_entries-rows id ref (legs_of holdings payable fees) t'
          ∙ ap
              (λ (es : List LedgerEntry).
                es ++ rows id ref (legs_of holdings payable fees) t'.next_id t'.next_sequence)
              (same.entries ∙ old);
      transactions =
          append_entries-transactions id ref (legs_of holdings payable fees) t'
          ∙ same.transactions
          ∙ new;
      debits =
          rw (fee_credit.debits id ref (t'.next_id + 1 + 1) (t'.next_sequence + 1 + 1))
            (pos-add_zero g);
      credits =
          rw (fee_credit.credits id ref (t'.next_id + 1 + 1) (t'.next_sequence + 1 + 1))
            (pos-add_rest g fee fee-lt);
      positive = (
        omega arith,
        (
          omega (arith, fee-lt),
          fee_credit.positive id ref (t'.next_id + 1 + 1) (t'.next_sequence + 1 + 1),
        ),
      );
    }

    post_new-Posted :
        (s' : Ledger) × (id : ℕ) × (post_new gross_of s ≡ ok (result id, s')) × Posted id s s'
    unfolding ledger_account_code post_new create_transaction create_entries
    post_new-Posted =
        let (h, t1, e1, same1) =
          ensure_account-returns merchant_holdings ref (some p.merchant_id) s refl in
        let (y, t2, e2, same2) =
          ensure_account-returns merchant_payable ref (some p.merchant_id) t1 refl in
        let same = SameBooks-trans same1 same2 in
        let t3 : Ledger = record t2 {
          transactions = t2.transactions ++ (transaction t2.next_id ∷ []);
          next_id = t2.next_id + 1;
        } in
        let (fees, t4, e3, same3, fee_credit) =
          fee_legs-Credits p.asset_symbol p.asset_decimals fee ref t3 in
        let net : 0 < g - fee = omega (arith, fee-lt) in
        (
          append_entries t2.next_id ref (legs_of h y fees) t4,
          t2.next_id,
          rw (
            ◌>>=◌,
            ◌>>◌,
            every,
            percentage_bps-amount p.asset_symbol p.asset_decimals g f,
            subtract-amount p.asset_symbol p.asset_decimals g fee (omega (arith, fee-lt)),
            e1,
            e2,
            e3,
            is_pos-pos g positive,
            is_pos-pos (g - fee) net,
            fee_credit.checked,
          ),
          written-Posted t2.next_id h y same.entries
              (ap (λ (ts : List LedgerTransaction). ts ++ (transaction t2.next_id ∷ []))
                same.transactions)
              same3 fee_credit,
        )

    module _
        (fresh : find
            (λ (t : LedgerTransaction). same_key t.idempotency_key p.idempotency_key)
            s.transactions
          ≡ none) where
      -- A confirmed payment of `g` units, at a fee of `f` basis points below 10000 and under a key that
      -- no transaction has, is posted: the call returns, the fee is `⌊g * f / 10000⌋` and the net is
      -- the rest, the store gains one transaction with the key, and the entries that it gains are
      -- positive and put `g` on each side.
      pub post_payment_credit_balanced :
          (s' : Ledger) × (id : ℕ) × (post_payment_credit gross_of s ≡ ok (result id, s'))
          × Posted id s s'
      unfolding post_payment_credit
      post_payment_credit_balanced =
          let (s', id, e, posted) = post_new-Posted in
          let fee_ok : leb_ℤ (pos f) (pos 10000) ≡ true = ground arith in
          (s', id, rw (is_pos-pos g positive, fee_ok, fresh, ◌>>=◌, ◌>>◌) e, posted)
