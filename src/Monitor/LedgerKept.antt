-- ===== src/Monitor/LedgerKept.antt =====
-- Detection and reorganisations (apps/blockchain-monitor/src/monitor.service.ts) leave the ledger alone.
use crypto_payment.Prelude.{
  ℕ, ◌+◌, String, Bool, true, false, Option, none, some, List, [], ◌∷◌, ok, ◌≡◌, refl, sym, ap,
}
use crypto_payment.Prelude.Int.{ℤ}
use crypto_payment.Invoice.Status.{InvoiceStatus, WebhookEventType}
use crypto_payment.Invoice.StateMachine.{webhook_event_for_status}
use crypto_payment.Ledger.Store.{Ledger}
use crypto_payment.Payments.Matcher.{TransferMatchStatus, pending_confirmation, MatchDecision}
use crypto_payment.Monitor.Store.{
  Db, Invoice, TokenTransfer, PaymentAddress, BlockchainTransaction, EventType, new_id, MonitorTx,
}
use crypto_payment.Monitor.Records.{
  read_invoice, assert_monitor, record_event, create_webhook, upsert_webhook, emit_event,
  emit_webhook,
}
use crypto_payment.Monitor.Chain.{
  ChainTransaction, ParsedTransfer, write_chain_transaction, record_chain_transaction,
}
use crypto_payment.Monitor.TransferRows.{has_expired, write_transfer}
use crypto_payment.Monitor.Detection.{
  first_sighting, advance_on_first_sighting, late_review_writes, move_to_late_payment_review,
  follow_decision, record_decision, record_match, match_and_record, record_transfer, record_all,
  process_transaction,
}
use crypto_payment.Monitor.Reorg.{
  record_discrepancy, revert_to, revert_invoice_after_orphan, require_reconciliation,
  flag_orphaned_credit, revert_if_matched, orphan_uncredited, orphan_transfer, orphan_transaction,
  handle_reorg,
}
use crypto_payment.Monitor.Same.{
  Same, Same-pure, Same-lift, Same-gets, Same-or_throw, Same-modify, Same-if, Same-when, Same-bind,
  Same-for_each, Same-each,
}

abbrev ledger_of : Db → Ledger
ledger_of db = db.ledger

abbrev Kept : {A : Type 0} → MonitorTx A → Type 0
Kept m = Same ledger_of m

Kept-new_id : Kept new_id
unfolding Same
Kept-new_id s a s' h =
    let same : record s { next_id = a + 1 } ≡ s' = cc h in ap ledger_of (sym same)

ruleset kept_rules = (
  Same-pure, Same-lift, Same-gets, Same-or_throw, Same-modify, Same-if, Same-when, Same-bind,
  Same-for_each, Kept-new_id, refl,
)

-- The records
Kept-record_event :
    (id : ℕ) (type : EventType) (from to : InvoiceStatus) (via : Option String)
    → Kept (record_event id type from to via)
unfolding record_event
Kept-record_event id type from to via = search kept_rules

Kept-upsert :
    (b : Bool) (type : WebhookEventType) (id : ℕ) (i : Invoice) → Kept (upsert_webhook b type id i)
unfolding upsert_webhook create_webhook
Kept-upsert true type id i = search kept_rules
Kept-upsert false type id i = search kept_rules

Kept-read_invoice : (id : ℕ) → Kept (read_invoice id)
unfolding read_invoice
Kept-read_invoice id = search kept_rules

Kept-emit_event : (id : ℕ) (o : Option WebhookEventType) → Kept (emit_event id o)
unfolding emit_event
Kept-emit_event id none = search kept_rules
Kept-emit_event id (some type) = search (kept_rules, Kept-read_invoice, Kept-upsert)

Kept-emit_webhook : (id : ℕ) (st : InvoiceStatus) → Kept (emit_webhook id st)
unfolding emit_webhook
Kept-emit_webhook id st = Kept-emit_event id (webhook_event_for_status st)

Kept-assert_monitor : (from to : InvoiceStatus) → Kept (assert_monitor from to)
unfolding assert_monitor
Kept-assert_monitor from to = search kept_rules

ruleset record_rules =
    (kept_rules, Kept-record_event, Kept-emit_webhook, Kept-assert_monitor, Kept-read_invoice)

-- Reorganisations
Kept-revert_to : (id : ℕ) (from to : InvoiceStatus) → Kept (revert_to id from to)
unfolding revert_to
Kept-revert_to id from to = search record_rules depth 8

Kept-revert : (o : Option ℕ) → Kept (revert_if_matched o)
unfolding revert_if_matched revert_invoice_after_orphan
Kept-revert none = search kept_rules
Kept-revert (some id) = search (record_rules, Kept-revert_to) depth 8

Kept-record_discrepancy : (t id : ℕ) → Kept (record_discrepancy t id)
unfolding record_discrepancy
Kept-record_discrepancy t id = search kept_rules

Kept-require_reconciliation :
    (t id : ℕ) (st : InvoiceStatus) → Kept (require_reconciliation t id st)
unfolding require_reconciliation
Kept-require_reconciliation t id st = search (record_rules, Kept-record_discrepancy) depth 8

Kept-flag : (t : ℕ) (o : Option ℕ) → Kept (flag_orphaned_credit t o)
unfolding flag_orphaned_credit
Kept-flag t none = search kept_rules
Kept-flag t (some id) = search (record_rules, Kept-require_reconciliation) depth 8

Kept-orphan_uncredited : (t : TokenTransfer) → Kept (orphan_uncredited t)
unfolding orphan_uncredited
Kept-orphan_uncredited t = search (kept_rules, Kept-revert)

Kept-by_credit :
    (o : Option ℤ) (t : TokenTransfer)
    → Kept (elim o [ none ↦ orphan_uncredited t | some _ ↦ flag_orphaned_credit t.id t.invoice_id ])
Kept-by_credit none t = Kept-orphan_uncredited t
Kept-by_credit (some at) t = Kept-flag t.id t.invoice_id

Kept-orphan_transfer : (t : TokenTransfer) → Kept (orphan_transfer t)
unfolding orphan_transfer
Kept-orphan_transfer t = Kept-by_credit t.credited_at t

Kept-orphan_transaction : (now : ℤ) (c : BlockchainTransaction) → Kept (orphan_transaction now c)
unfolding orphan_transaction
Kept-orphan_transaction now c = search (kept_rules, Kept-orphan_transfer) depth 8

-- A reorganisation never touches the ledger, wherever its loop ends: no posting is reversed or changed.
pub handle_reorg_keeps_ledger :
    (now : ℤ) (network : String) (from_block : ℤ) (db : Db)
    → (handle_reorg now network from_block db).0.ledger ≡ db.ledger
unfolding handle_reorg
handle_reorg_keeps_ledger now network from_block db =
    Same-each ledger_of _ (orphan_transaction now) (Kept-orphan_transaction now) db

-- Detection
Kept-first_sighting :
    (now : ℤ) (id : ℕ) (st : InvoiceStatus) → Kept (advance_on_first_sighting now id st)
unfolding advance_on_first_sighting first_sighting
Kept-first_sighting now id st = search record_rules depth 9

Kept-late_review : (id : ℕ) (st : InvoiceStatus) → Kept (move_to_late_payment_review id st)
unfolding move_to_late_payment_review late_review_writes
Kept-late_review id st = search record_rules depth 9

Kept-follow_decision :
    (now : ℤ) (i : Option Invoice) (st : TransferMatchStatus) → Kept (follow_decision now i st)
unfolding follow_decision
Kept-follow_decision now none st = search kept_rules
Kept-follow_decision now (some i) pending_confirmation = Kept-first_sighting now i.id i.status
Kept-follow_decision now (some i) TransferMatchStatus.late_payment_review =
    Kept-late_review i.id i.status
Kept-follow_decision now (some i) _ = search kept_rules

Kept-write_transfer :
    (o : Option TokenTransfer) (tx : ℕ) (row : ℕ → ℕ → Option ℤ → TokenTransfer)
    → Kept (write_transfer o tx row)
unfolding write_transfer
Kept-write_transfer none tx row = search kept_rules
Kept-write_transfer (some t) tx row = search kept_rules

Kept-has_expired : (grace now : ℤ) (i : Option Invoice) → Kept (has_expired grace now i)
unfolding has_expired
Kept-has_expired grace now none = search kept_rules
Kept-has_expired grace now (some i) = search kept_rules

Kept-record_decision :
    (o : Option TokenTransfer) (now : ℤ) (network : String) (tx : ℕ) (c : ChainTransaction)
    (t : ParsedTransfer) (a : Option PaymentAddress) (i : Option Invoice) (d : MatchDecision)
    → Kept (record_decision o now network tx c t a i d)
unfolding record_decision
Kept-record_decision o now network tx c t a i d =
    search (kept_rules, Kept-write_transfer, Kept-follow_decision)

Kept-record_transfer :
    (grace now : ℤ) (network : String) (tx : ℕ) (c : ChainTransaction) (t : ParsedTransfer)
    → Kept (record_transfer grace now network tx c t)
unfolding record_transfer match_and_record record_match
Kept-record_transfer grace now network tx c t =
    search (kept_rules, Kept-has_expired, Kept-record_decision) depth 9

Kept-write_chain :
    (o : Option BlockchainTransaction) (now : ℤ) (network : String) (c : ChainTransaction)
    → Kept (write_chain_transaction o now network c)
unfolding write_chain_transaction
Kept-write_chain none now network c = search kept_rules
Kept-write_chain (some t) now network c = search kept_rules

Kept-record_chain :
    (now : ℤ) (network : String) (c : ChainTransaction)
    → Kept (record_chain_transaction now network c)
unfolding record_chain_transaction
Kept-record_chain now network c = search (kept_rules, Kept-write_chain)

Kept-record_all :
    (grace now : ℤ) (network : String) (c : ChainTransaction) (ts : List ParsedTransfer)
    → Kept (record_all grace now network c ts)
unfolding record_all
Kept-record_all grace now network c ts =
    search (kept_rules, Kept-record_chain, Kept-record_transfer) depth 8

Kept-process :
    (grace now : ℤ) (network : String) (c : Option ChainTransaction) (ts : List ParsedTransfer)
    → Kept (process_transaction grace now network c ts)
unfolding process_transaction
Kept-process grace now network none ts = search kept_rules
Kept-process grace now network (some c) [] = search kept_rules
Kept-process grace now network (some c) (t ∷ ts) = Kept-record_all grace now network c (t ∷ ts)

-- Detecting a transaction never touches the ledger: a call that returns has written no account, no
-- transaction and no entry, so that funds are credited by the confirmation engine alone.
pub process_transaction_keeps_ledger :
    (grace now : ℤ) (network : String) (c : Option ChainTransaction) (ts : List ParsedTransfer)
    (db db' : Db)
    → process_transaction grace now network c ts db ≡ ok (tt, db')
    → db'.ledger ≡ db.ledger
unfolding Same
process_transaction_keeps_ledger grace now network c ts db db' h =
    Kept-process grace now network c ts db tt db' h
