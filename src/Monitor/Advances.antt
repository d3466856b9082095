-- ===== src/Monitor/Advances.antt =====
-- The moves of an invoice that the settlement and reorganisation handlers of
-- apps/blockchain-monitor/src/monitor.service.ts make.
use crypto_payment.Prelude.{
  ℕ, String, Option, none, some, List, refl, ltb, if◌then◌else◌, filter, update_where, ◌==◌,
}
use crypto_payment.Prelude.Int.{ℤ}
use crypto_payment.Prelude.Tx.{pure, gets, modify, for_each}
use crypto_payment.Invoice.Status.{InvoiceStatus, detected, pending, reconciliation_required}
use crypto_payment.Invoice.StateMachine.{can_transition}
use crypto_payment.Payments.Matcher.{orphaned}
use crypto_payment.Monitor.Store.{
  Db, Invoice, TokenTransfer, BlockchainTransaction, Merchant, orphaned_tx, MonitorTx,
  payment_status,
}
use crypto_payment.Monitor.Records.{record_event, emit_webhook, update_transfer}
use crypto_payment.Monitor.Rules.{
  Quiet, Moves, MovesFrom, Quiet-Moves, Moves-MovesFrom, MovesFrom-if, Moves-bind, MovesFrom-Quiet,
  Moves-for_each, MovesFrom-change, MovesFrom-update, Moves-read_invoice, MovesFrom-then,
  Moves-when, MovesFrom-when,
}
use crypto_payment.Monitor.Same.{Same-bind, Same-pure, Same-gets, Same-modify}
use crypto_payment.Monitor.Rules.{invoices_of}
use crypto_payment.Monitor.Quiet.{
  quiet_rules, Quiet-record_event, Quiet-emit_webhook, Quiet-credit_transfer,
  Quiet-record_discrepancy, Quiet-reached_threshold,
}
use crypto_payment.Monitor.Settlement.{
  advance_confirming, start_confirming, mark_paid, accept_payment, settle, settle_if_permitted,
  evaluate_total, finalize_eligible, finalize_invoice, confirm_invoice, confirm_transfer,
  credit_transfer, confirmed_transfers, reached_threshold,
}
use crypto_payment.Monitor.Reorg.{
  revert_to, revert_invoice_after_orphan, require_reconciliation, flag_orphaned_credit,
  revert_if_matched, orphan_uncredited, orphan_transfer, orphan_transaction, remaining_transfers,
}
use crypto_payment.Monitor.Detection.{
  first_sighting, advance_on_first_sighting, late_review_writes, move_to_late_payment_review,
}

pub Moves-pure : Moves (pure tt)
Moves-pure = Quiet-Moves _ (Same-pure invoices_of tt)

pub stays : (id : ℕ) (st : InvoiceStatus) → MovesFrom id st (pure tt)
stays id st = Moves-MovesFrom id st _ Moves-pure

pub quietly : (id : ℕ) (st : InvoiceStatus) (m : MonitorTx (Unit {0})) → Quiet m → MovesFrom id st m
quietly id st m q = Moves-MovesFrom id st m (Quiet-Moves m q)

ruleset moves_rules = (
  quiet_rules, Quiet-record_event, Quiet-emit_webhook, stays, quietly, MovesFrom-if,
  MovesFrom-change, MovesFrom-update,
)

-- Detection
pub advance_on_first_sighting-MovesFrom :
    (now : ℤ) (id : ℕ) (st : InvoiceStatus) → MovesFrom id st (advance_on_first_sighting now id st)
unfolding advance_on_first_sighting first_sighting
advance_on_first_sighting-MovesFrom now id st = search moves_rules depth 8

pub move_to_late_payment_review-MovesFrom :
    (id : ℕ) (st : InvoiceStatus) → MovesFrom id st (move_to_late_payment_review id st)
unfolding move_to_late_payment_review late_review_writes
move_to_late_payment_review-MovesFrom id st = search moves_rules depth 8

-- Confirmation
pub advance_confirming-MovesFrom :
    (i : Invoice) (n : ℤ) → MovesFrom i.id i.status (advance_confirming i n)
unfolding advance_confirming start_confirming
advance_confirming-MovesFrom i n = search moves_rules depth 8

pub mark_paid-MovesFrom :
    (now : ℤ) (id : ℕ) (st : InvoiceStatus) → MovesFrom id st (mark_paid now id st)
unfolding mark_paid
mark_paid-MovesFrom now id st = search moves_rules depth 8

pub settle-MovesFrom :
    (now : ℤ) (i : Invoice) (m : Merchant) (target : InvoiceStatus) (ts : List TokenTransfer)
    (total : ℤ)
    → MovesFrom i.id i.status (settle now i m target ts total)
unfolding settle accept_payment
settle-MovesFrom now i m target ts total =
    let crediting : Moves
        (for_each (confirmed_transfers i.required_confirmations ts) (credit_transfer now i m)) =
      Moves-for_each _ _ (λ t. Quiet-Moves _ (Quiet-credit_transfer now i m t)) in
    let accepting : MovesFrom i.id target (accept_payment now i m target ts) =
      MovesFrom-then (mark_paid now i.id target) _ i.id target (mark_paid-MovesFrom now i.id target)
        (λ _. crediting) in
    MovesFrom-change i.id i.status target _ _ (λ j. refl) (λ j. refl)
      (MovesFrom-Quiet (record_event i.id (payment_status target) i.status target none) _ i.id
        target (Quiet-record_event i.id (payment_status target) i.status target none)
        (λ _.
          MovesFrom-Quiet (emit_webhook i.id target) _ i.id target (Quiet-emit_webhook i.id target)
            (λ _. MovesFrom-when _ i.id target _ accepting)))

pub settle_if_permitted-MovesFrom :
    (now : ℤ) (i : Invoice) (m : Merchant) (target : Option InvoiceStatus) (ts : List TokenTransfer)
    (total : ℤ)
    → MovesFrom i.id i.status (settle_if_permitted now i m target ts total)
unfolding settle_if_permitted
settle_if_permitted-MovesFrom now i m none ts total = stays i.id i.status
settle_if_permitted-MovesFrom now i m (some target) ts total =
    MovesFrom-if (can_transition i.status target) i.id i.status _ _
      (settle-MovesFrom now i m target ts total) (stays i.id i.status)

pub finalize_eligible-MovesFrom :
    (now : ℤ) (i : Invoice) → MovesFrom i.id i.status (finalize_eligible now i)
unfolding finalize_eligible evaluate_total
finalize_eligible-MovesFrom now i =
    search (moves_rules, MovesFrom-Quiet, settle_if_permitted-MovesFrom) depth 12

pub finalize_invoice-Moves : (now : ℤ) (id : ℕ) → Moves (finalize_invoice now id)
unfolding finalize_invoice
finalize_invoice-Moves now id = Moves-read_invoice id _ (λ i own.
    MovesFrom-if _ i.id i.status _ _ (finalize_eligible-MovesFrom now i) (stays i.id i.status))

pub confirm_invoice-Moves : (now n : ℤ) (o : Option ℕ) → Moves (confirm_invoice now n o)
unfolding confirm_invoice
confirm_invoice-Moves now n none = Moves-pure
confirm_invoice-Moves now n (some id) = Moves-read_invoice id _ (λ i own.
    MovesFrom-then (advance_confirming i n) _ i.id i.status (advance_confirming-MovesFrom i n) (λ _.
      Moves-bind (reached_threshold n i.required_confirmations) _
        (Quiet-Moves _ (Quiet-reached_threshold n i.required_confirmations))
        (λ b. Moves-when b _ (finalize_invoice-Moves now i.id))))

pub confirm_transfer-Moves :
    (get : String → ℤ) (now : ℤ) (t : TokenTransfer) → Moves (confirm_transfer get now t)
unfolding confirm_transfer
confirm_transfer-Moves get now t =
    Moves-bind (update_transfer t.id (λ u. record u { confirmations = get t.tx_hash })) _
      (Quiet-Moves _ (Same-modify invoices_of _ (λ s. refl)))
      (λ _. confirm_invoice-Moves now (get t.tx_hash) t.invoice_id)

-- Reorganisations
pub revert_to-MovesFrom :
    (id : ℕ) (from to : InvoiceStatus)
    → MovesFrom id from (if can_transition from to then revert_to id from to else pure tt)
unfolding revert_to
revert_to-MovesFrom id from to = search moves_rules depth 8

pub revert_invoice_after_orphan-Moves : (id : ℕ) → Moves (revert_invoice_after_orphan id)
unfolding revert_invoice_after_orphan
revert_invoice_after_orphan-Moves id = Moves-read_invoice id _ (λ i own. rw (← own) (
    MovesFrom-Quiet (gets (remaining_transfers i.id)) _ i.id i.status (Same-gets invoices_of _)
      (λ n. revert_to-MovesFrom i.id i.status (if ltb 0 n then detected else pending))))

pub flag_orphaned_credit-Moves : (t : ℕ) (o : Option ℕ) → Moves (flag_orphaned_credit t o)
unfolding flag_orphaned_credit require_reconciliation
flag_orphaned_credit-Moves t none = Moves-pure
flag_orphaned_credit-Moves t (some id) = Moves-read_invoice id _ (λ i own. rw (← own) (
    MovesFrom-if _ i.id i.status _ _
      (MovesFrom-change i.id i.status reconciliation_required _ _ (λ j. refl) (λ j. refl)
        (quietly i.id _ _ (
          Same-bind invoices_of (record_event i.id _ i.status _ _) _
            (Quiet-record_event i.id _ _ _ _) (λ _. Quiet-record_discrepancy t i.id))))
      (stays i.id i.status)))

pub revert_if_matched-Moves : (o : Option ℕ) → Moves (revert_if_matched o)
unfolding revert_if_matched
revert_if_matched-Moves none = Moves-pure
revert_if_matched-Moves (some id) = revert_invoice_after_orphan-Moves id

pub orphan_uncredited-Moves : (t : TokenTransfer) → Moves (orphan_uncredited t)
unfolding orphan_uncredited
orphan_uncredited-Moves t =
    Moves-bind (update_transfer t.id (λ u. record u { match_status = orphaned })) _
      (Quiet-Moves _ (Same-modify invoices_of _ (λ s. refl)))
      (λ _. revert_if_matched-Moves t.invoice_id)

pub orphan_transfer-Moves : (t : TokenTransfer) → Moves (orphan_transfer t)
unfolding orphan_transfer
orphan_transfer-Moves t = by_credit t.credited_at
  where
    by_credit :
        (o : Option ℤ)
        → Moves (elim o [
          | none ↦ orphan_uncredited t
          | some _ ↦ flag_orphaned_credit t.id t.invoice_id
        ])
    by_credit none = orphan_uncredited-Moves t
    by_credit (some x) = flag_orphaned_credit-Moves t.id t.invoice_id

pub orphan_transaction-Moves :
    (now : ℤ) (c : BlockchainTransaction) → Moves (orphan_transaction now c)
unfolding orphan_transaction
orphan_transaction-Moves now c =
    Moves-bind
      (modify (λ (db : Db). record db {
        transactions =
            update_where (λ (t : BlockchainTransaction). t.id == c.id)
              (λ t. record t { status = orphaned_tx; orphaned_at = some now }) db.transactions;
      }))
      _ (Quiet-Moves _ (Same-modify invoices_of _ (λ s. refl)))
      (λ _.
        Moves-bind
          (gets
            (λ (db : Db). filter (λ (t : TokenTransfer). t.transaction_id == c.id) db.transfers))
          _ (Quiet-Moves _ (Same-gets invoices_of _))
          (λ ts. Moves-for_each ts _ orphan_transfer-Moves))
