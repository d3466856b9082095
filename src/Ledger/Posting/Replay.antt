-- ===== src/Ledger/Posting/Replay.antt =====
-- Posting the same payment again (packages/ledger/src/posting.ts): the idempotency key, and the
-- conditions under which a posting is refused.
use crypto_payment.Prelude.{
  ℕ, ◌*◌, ◌/◌, ◌+◌, ◌-◌, ◌≤◌, ◌<◌, true, none, some, [], ◌∷◌, ◌++◌, ok, err, ◌≡◌, refl, arith, find,
  ==_iff, inl, inr, Bool-cases, List, every,
}
use crypto_payment.Prelude.Int.{pos, leb_ℤ}
use crypto_payment.Prelude.Tx.{◌>>=◌, ◌>>◌}
use crypto_payment.Money.Natural.{
  amount, percentage_bps-amount, subtract-amount, is_pos-pos, share-le,
}
use crypto_payment.Ledger.Accounts.{merchant_holdings, merchant_payable, ledger_account_code}
use crypto_payment.Ledger.Posting.Legs.{ensure_account-returns}
use text.Mathlib.TextPositions.{eq_refl}
use crypto_payment.Ledger.Store.{
  Ledger, LedgerTransaction, IdempotencyKey, same_key, amount_not_positive,
}
use crypto_payment.Ledger.Posting.{
  AccountRef, PostPaymentCreditParams, PostingResult, post_payment_credit, post_new, replay,
  create_transaction, create_entries,
}
use crypto_payment.Ledger.Posting.Balanced.{
  fee_legs-Credits, gross_of, fee, post_payment_credit_balanced,
}

pub same_key_refl : (k : IdempotencyKey) → same_key k k ≡ true
unfolding same_key
same_key_refl k =
    rw (eq_refl k.network, eq_refl k.tx_hash, (==_iff k.transfer_index k.transfer_index).1 refl)

find-last :
    (key : IdempotencyKey) (ts : List LedgerTransaction) (t : LedgerTransaction)
    → find (λ (u : LedgerTransaction). same_key u.idempotency_key key) ts ≡ none
    → same_key t.idempotency_key key ≡ true
    → find (λ (u : LedgerTransaction). same_key u.idempotency_key key) (ts ++ t ∷ []) ≡ some t
find-last key [] t fresh same = rw same
find-last key (u ∷ ts) t fresh same = elim (Bool-cases (same_key u.idempotency_key key)) [
  | inl e ↦ let absurd : some u ≡ none = rw e at fresh in cc absurd
  | inr e ↦ rw e (find-last key ts t (rw e at fresh) same)
]

module _ (p : PostPaymentCreditParams) (g f : ℕ) (s : Ledger) (positive : 0 < g)
    (fits : f ≤ 10000) where
  -- Where a transaction has the key, the call writes nothing, and gives back that transaction with
  -- the fee and the net of this call's amount.
  pub post_payment_credit_replays :
      {t : LedgerTransaction}
      → find
          (λ (t : LedgerTransaction). same_key t.idempotency_key p.idempotency_key)
          s.transactions
        ≡ some t
      → post_payment_credit (gross_of p g f) s
        ≡ ok (
          record {
            ledger_transaction_id = t.id;
            already_posted = true;
            gross_amount = amount p.asset_symbol p.asset_decimals g;
            fee_amount = amount p.asset_symbol p.asset_decimals (fee p g f);
            net_amount = amount p.asset_symbol p.asset_decimals (g - fee p g f);
          },
          s,
        )
  unfolding post_payment_credit replay
  post_payment_credit_replays {t} present =
      let fee_ok : leb_ℤ (pos f) (pos 10000) ≡ true = ground arith in
      rw (
        is_pos-pos g positive,
        fee_ok,
        present,
        ◌>>=◌,
        ◌>>◌,
        percentage_bps-amount p.asset_symbol p.asset_decimals g f,
        subtract-amount p.asset_symbol p.asset_decimals g (fee p g f) (share-le g f fits),
      )

module _ (p : PostPaymentCreditParams) (g f : ℕ) (s : Ledger) (positive : 0 < g) (fits : f < 10000)
    (fresh : find
        (λ (t : LedgerTransaction). same_key t.idempotency_key p.idempotency_key)
        s.transactions
      ≡ none) where
  -- The same payment posted twice is posted once: the second call gives back the first one's
  -- transaction, and leaves the store as the first one left it.
  pub post_payment_credit_once :
      (s' : Ledger) × (r : PostingResult) × (post_payment_credit (gross_of p g f) s ≡ ok (r, s'))
      × (post_payment_credit (gross_of p g f) s' ≡ ok (record r { already_posted = true }, s'))
  post_payment_credit_once =
      let (s', id, e, posted) = post_payment_credit_balanced p g f s positive fits fresh in
      let present : find (λ (t : LedgerTransaction). same_key t.idempotency_key p.idempotency_key)
            s'.transactions
          ≡ some (record {
            id = id;
            invoice_id = p.invoice_id;
            token_transfer_id = p.token_transfer_id;
            idempotency_key = p.idempotency_key;
          }) =
        rw (posted.transactions)
          (find-last p.idempotency_key s.transactions _ fresh (same_key_refl p.idempotency_key)) in
      (s', _, e, post_payment_credit_replays p g f s' positive (omega arith) present)

module _ (p : PostPaymentCreditParams) (g : ℕ) (s : Ledger) (positive : 0 < g)
    (fresh : find
        (λ (t : LedgerTransaction). same_key t.idempotency_key p.idempotency_key)
        s.transactions
      ≡ none) where
  abbrev ref : AccountRef
  ref = record {
    network = p.network;
    asset_symbol = p.asset_symbol;
    asset_decimals = p.asset_decimals;
  }

  -- A fee of exactly 10000 basis points passes the check of `feeBps`, and the posting then fails in
  -- the table: the net leg is 0, which the CHECK constraint of the entries refuses.
  pub post_payment_credit_whole_fee :
      post_payment_credit (gross_of p g 10000) s ≡ err amount_not_positive
  unfolding post_payment_credit post_new create_transaction create_entries ledger_account_code
  post_payment_credit_whole_fee =
      let rest : g - g * 10000 / 10000 ≡ 0 = omega arith in
      let (h, t1, e1, _) =
        ensure_account-returns merchant_holdings ref (some p.merchant_id) s refl in
      let (y, t2, e2, _) =
        ensure_account-returns merchant_payable ref (some p.merchant_id) t1 refl in
      let (fees, t4, e3, _, _) =
        fee_legs-Credits p.asset_symbol p.asset_decimals (fee p g 10000) ref (record t2 {
          transactions =
              t2.transactions
              ++ (record {
                id = t2.next_id;
                invoice_id = p.invoice_id;
                token_transfer_id = p.token_transfer_id;
                idempotency_key = p.idempotency_key;
              }
                  ∷ []);
          next_id = t2.next_id + 1;
        }) in
      rw (
        ◌>>=◌,
        ◌>>◌,
        every,
        is_pos-pos g positive,
        fresh,
        percentage_bps-amount p.asset_symbol p.asset_decimals g 10000,
        subtract-amount p.asset_symbol p.asset_decimals g (fee p g 10000) (omega arith),
        e1,
        e2,
        e3,
        rest,
        is_pos-pos g positive,
      )
