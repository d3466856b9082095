-- ===== src/Monitor/Quiet.antt =====
-- The writes of apps/blockchain-monitor/src/monitor.service.ts that touch no invoice.
use crypto_payment.Prelude.{
  ℕ, ◌+◌, String, Bool, true, false, Option, none, some, List, [], ◌∷◌, Result, ok, err, ◌≡◌, refl,
  sym, ap, ◌∙◌, inl, inr, Result-cases, if◌then◌else◌,
}
use crypto_payment.Prelude.Int.{ℤ}
use crypto_payment.Prelude.Tx.{Tx}
use crypto_payment.Invoice.Status.{InvoiceStatus, WebhookEventType}
use crypto_payment.Invoice.StateMachine.{webhook_event_for_status}
use crypto_payment.Ledger.Store.{Ledger, LedgerError}
use crypto_payment.Monitor.Store.{
  Db, Invoice, TokenTransfer, BlockchainTransaction, Merchant, EventType, ledger, in_ledger, new_id,
}
use crypto_payment.Monitor.Records.{
  read_invoice, record_event, create_webhook, upsert_webhook, emit_event, emit_webhook,
}
use crypto_payment.Monitor.Rules.{Quiet, invoices_of}
use crypto_payment.Monitor.Same.{
  Same, Same-bind, Same-pure, Same-lift, Same-if, Same-gets, Same-or_throw, Same-modify, Same-when,
}
use crypto_payment.Monitor.Settlement.{credit_transfer, reached_threshold}
use crypto_payment.Monitor.Chain.{
  ChainTransaction, write_chain_transaction, record_chain_transaction,
}
use crypto_payment.Monitor.TransferRows.{has_expired, write_transfer}
use crypto_payment.Monitor.Reorg.{record_discrepancy}

pub Quiet-new_id : Quiet new_id
unfolding Same
Quiet-new_id s a s' h =
    let same : record s { next_id = a + 1 } ≡ s' = cc h in ap (λ (d : Db). d.invoices) (sym same)

pub Quiet-in_ledger : {A : Type 0} (step : Tx Ledger LedgerError A) → Quiet (in_ledger step)
unfolding Same
Quiet-in_ledger step s a s' h = elim (Result-cases (step s.ledger)) [
  | inl ((b, books), e) ↦
      let same : ok (b, record s { ledger = books }) ≡ ok (a, s') = rw (e, in_ledger) at h in
      let same_s : record s { ledger = books } ≡ s' = cc same in
      ap (λ (d : Db). d.invoices) (sym same_s)
  | inr (x, e) ↦ let absurd : err (ledger x) ≡ ok (a, s') = rw (e, in_ledger) at h in cc absurd
]

pub ruleset quiet_rules = (
  Same-bind, Same-pure, Same-lift, Same-if, Same-gets, Same-or_throw, Same-modify, Same-when,
  Quiet-new_id, Quiet-in_ledger, refl,
)

pub Quiet-record_event :
    (id : ℕ) (type : EventType) (from to : InvoiceStatus) (via : Option String)
    → Quiet (record_event id type from to via)
unfolding record_event
Quiet-record_event id type from to via = search quiet_rules

Quiet-upsert :
    (b : Bool) (type : WebhookEventType) (id : ℕ) (i : Invoice) → Quiet (upsert_webhook b type id i)
unfolding upsert_webhook create_webhook
Quiet-upsert true type id i = Same-pure invoices_of tt
Quiet-upsert false type id i = search quiet_rules

pub Quiet-read_invoice : (id : ℕ) → Quiet (read_invoice id)
unfolding read_invoice
Quiet-read_invoice id = search quiet_rules

Quiet-emit_event : (id : ℕ) (o : Option WebhookEventType) → Quiet (emit_event id o)
unfolding emit_event
Quiet-emit_event id none = Same-pure invoices_of tt
Quiet-emit_event id (some type) = search (quiet_rules, Quiet-read_invoice, Quiet-upsert)

pub Quiet-emit_webhook : (id : ℕ) (st : InvoiceStatus) → Quiet (emit_webhook id st)
unfolding emit_webhook
Quiet-emit_webhook id st = Quiet-emit_event id (webhook_event_for_status st)

pub Quiet-credit_transfer :
    (now : ℤ) (i : Invoice) (m : Merchant) (t : TokenTransfer) → Quiet (credit_transfer now i m t)
unfolding credit_transfer
Quiet-credit_transfer now i m t = search quiet_rules

pub Quiet-record_discrepancy : (t i : ℕ) → Quiet (record_discrepancy t i)
unfolding record_discrepancy
Quiet-record_discrepancy t i = search quiet_rules

pub Quiet-reached_threshold : (n r : ℤ) → Quiet (reached_threshold n r)
unfolding reached_threshold
Quiet-reached_threshold n r = search quiet_rules

pub Quiet-has_expired : (grace now : ℤ) (i : Option Invoice) → Quiet (has_expired grace now i)
unfolding has_expired
Quiet-has_expired grace now none = Same-pure invoices_of false
Quiet-has_expired grace now (some i) = search quiet_rules

pub Quiet-write_transfer :
    (o : Option TokenTransfer) (tx : ℕ) (row : ℕ → ℕ → Option ℤ → TokenTransfer)
    → Quiet (write_transfer o tx row)
unfolding write_transfer
Quiet-write_transfer none tx row = search quiet_rules
Quiet-write_transfer (some t) tx row = search quiet_rules

Quiet-write_chain_transaction :
    (o : Option BlockchainTransaction) (now : ℤ) (network : String) (c : ChainTransaction)
    → Quiet (write_chain_transaction o now network c)
unfolding write_chain_transaction
Quiet-write_chain_transaction none now network c = search quiet_rules
Quiet-write_chain_transaction (some t) now network c = search quiet_rules

pub Quiet-record_chain_transaction :
    (now : ℤ) (network : String) (c : ChainTransaction)
    → Quiet (record_chain_transaction now network c)
unfolding record_chain_transaction
Quiet-record_chain_transaction now network c = search (quiet_rules, Quiet-write_chain_transaction)
