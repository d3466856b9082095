-- ===== src/Monitor/History.antt =====
-- The moves of an invoice that the detection handlers of
-- apps/blockchain-monitor/src/monitor.service.ts make.
use crypto_payment.Prelude.{ℕ, String, Option, none, some, List, [], ◌∷◌, ◌≡◌, sym, find}
use mathlib.Core.Path.{subst}
use crypto_payment.Prelude.Int.{ℤ}
use crypto_payment.Prelude.Tx.{gets}
use crypto_payment.Payments.Matcher.{TransferMatchStatus, pending_confirmation, MatchDecision}
use crypto_payment.Monitor.Store.{Db, Invoice, TokenTransfer, PaymentAddress}
use crypto_payment.Monitor.Records.{same_invoice}
use crypto_payment.Monitor.Follows.{found-id}
use crypto_payment.Monitor.Rules.{
  Moves, MovesFrom, Quiet-Moves, Moves-if, Moves-bind, MovesFrom-Quiet, Moves-for_each,
  Moves-lookup,
}
use crypto_payment.Monitor.Same.{Same-gets}
use crypto_payment.Monitor.Rules.{invoices_of}
use crypto_payment.Monitor.Quiet.{
  quiet_rules, Quiet-has_expired, Quiet-write_transfer, Quiet-record_chain_transaction,
}
use crypto_payment.Monitor.Chain.{ChainTransaction, ParsedTransfer, record_chain_transaction}
use crypto_payment.Monitor.TransferRows.{invoice_of_address, has_expired}
use crypto_payment.Monitor.Detection.{
  follow_decision, match_and_record, record_transfer, record_all, process_transaction,
  record_decision, record_match, find_address, find_transfer, is_credited,
}
use crypto_payment.Monitor.Advances.{
  Moves-pure, stays, advance_on_first_sighting-MovesFrom, move_to_late_payment_review-MovesFrom,
}

-- Recording
follow_decision-MovesFrom :
    (now : ℤ) (i : Invoice) (st : TransferMatchStatus)
    → MovesFrom i.id i.status (follow_decision now (some i) st)
unfolding follow_decision
follow_decision-MovesFrom now i pending_confirmation =
    advance_on_first_sighting-MovesFrom now i.id i.status
follow_decision-MovesFrom now i TransferMatchStatus.late_payment_review =
    move_to_late_payment_review-MovesFrom i.id i.status
follow_decision-MovesFrom now i _ = stays i.id i.status

invoice_of_address-held :
    (a : Option PaymentAddress) (s : Db) (i : Invoice)
    → invoice_of_address a s ≡ some i
    → find (same_invoice i.id) s.invoices ≡ some i
invoice_of_address-held none s i h = cc h
invoice_of_address-held (some a) s i h = by_invoice a.invoice_id h
  where
    by_invoice :
        (o : Option ℕ)
        → elim o [ none ↦ none | some id ↦ find (same_invoice id) s.invoices ] ≡ some i
        → find (same_invoice i.id) s.invoices ≡ some i
    by_invoice none h = cc h
    by_invoice (some id) h =
        subst (λ n. find (same_invoice n) s.invoices ≡ some i) (sym (found-id id s.invoices i h)) h

record_decision-MovesFrom :
    (o : Option TokenTransfer) (now : ℤ) (network : String) (tx : ℕ) (c : ChainTransaction)
    (t : ParsedTransfer) (a : Option PaymentAddress) (i : Invoice) (d : MatchDecision)
    → MovesFrom i.id i.status (record_decision o now network tx c t a (some i) d)
unfolding record_decision
record_decision-MovesFrom o now network tx c t a i d =
    search (MovesFrom-Quiet, Quiet-write_transfer, follow_decision-MovesFrom)

record_decision-none :
    (o : Option TokenTransfer) (now : ℤ) (network : String) (tx : ℕ) (c : ChainTransaction)
    (t : ParsedTransfer) (a : Option PaymentAddress) (d : MatchDecision)
    → Moves (record_decision o now network tx c t a none d)
unfolding record_decision follow_decision
record_decision-none o now network tx c t a d =
    search (Quiet-Moves, quiet_rules, Quiet-write_transfer)

match_and_record-Moves :
    (o : Option TokenTransfer) (grace now : ℤ) (network : String) (tx : ℕ) (c : ChainTransaction)
    (t : ParsedTransfer)
    → Moves (match_and_record o grace now network tx c t)
unfolding match_and_record record_match
match_and_record-Moves o grace now network tx c t =
    Moves-bind (gets (find_address network t.to_address)) _
      (Quiet-Moves _ (Same-gets invoices_of _))
      (λ a.
        Moves-lookup (invoice_of_address a) (λ i. record_match o grace now network tx c t a i)
          (λ s i h. invoice_of_address-held a s i h)
          (Moves-bind (has_expired grace now none) _
            (Quiet-Moves _ (Quiet-has_expired grace now none))
            (λ expired. record_decision-none o now network tx c t a _))
          (λ i.
            MovesFrom-Quiet (has_expired grace now (some i)) _ i.id i.status
              (Quiet-has_expired grace now (some i))
              (λ expired. record_decision-MovesFrom o now network tx c t a i _)))

record_transfer-Moves :
    (grace now : ℤ) (network : String) (tx : ℕ) (c : ChainTransaction) (t : ParsedTransfer)
    → Moves (record_transfer grace now network tx c t)
unfolding record_transfer
record_transfer-Moves grace now network tx c t =
    Moves-bind (gets (find_transfer network c.hash t.transfer_index)) _
      (Quiet-Moves _ (Same-gets invoices_of _))
      (λ o.
        Moves-if (is_credited o) _ _ Moves-pure (match_and_record-Moves o grace now network tx c t))

record_all-Moves :
    (grace now : ℤ) (network : String) (c : ChainTransaction) (ts : List ParsedTransfer)
    → Moves (record_all grace now network c ts)
unfolding record_all
record_all-Moves grace now network c ts =
    Moves-bind (record_chain_transaction now network c) _
      (Quiet-Moves _ (Quiet-record_chain_transaction now network c))
      (λ tx. Moves-for_each ts _ (λ t. record_transfer-Moves grace now network tx c t))

pub process_transaction-Moves :
    (grace now : ℤ) (network : String) (c : Option ChainTransaction) (ts : List ParsedTransfer)
    → Moves (process_transaction grace now network c ts)
unfolding process_transaction
process_transaction-Moves grace now network none ts = Moves-pure
process_transaction-Moves grace now network (some c) [] = Moves-pure
process_transaction-Moves grace now network (some c) (t ∷ ts) =
    record_all-Moves grace now network c (t ∷ ts)
