-- ===== src/Monitor/Idempotent.antt =====
-- The steps of apps/blockchain-monitor/src/monitor.service.ts that change nothing when they are repeated.
use crypto_payment.Prelude.{
  ℕ, ◌+◌, Bool, true, false, Option, none, some, List, [], ◌∷◌, ◌++◌, ok, ◌≡◌, refl, inl, inr,
  arith, find, any, Bool-cases, ==_iff,
}
use crypto_payment.Prelude.Tx.{◌>>=◌, >>=-eq-ok, gets}
use crypto_payment.Invoice.Status.{InvoiceStatus, WebhookEventType}
use crypto_payment.Invoice.StateMachine.{webhook_event_for_status}
use crypto_payment.Monitor.Store.{Db, Invoice, WebhookEvent}
use crypto_payment.Monitor.Records.{
  same_invoice, read_invoice, emit_webhook, emit_event, upsert_webhook, create_webhook, has_key,
  same_event,
}
use crypto_payment.Monitor.Rules.{read_invoice-found}

any-last :
    (test : WebhookEvent → Bool) (ws : List WebhookEvent) (w : WebhookEvent)
    → test w ≡ true
    → any test (ws ++ w ∷ []) ≡ true
any-last test [] w h = rw h
any-last test (v ∷ ws) w h = elim (Bool-cases (test v)) [
  | inl e ↦ rw e
  | inr e ↦ rw e (any-last test ws w h)
]

same_event_refl : (t : WebhookEventType) → same_event t t ≡ true
same_event_refl t = ground arith

-- The upsert has written the row, or found it.
upsert_webhook-keeps :
    (b : Bool) (type : WebhookEventType) (id : ℕ) (i : Invoice) (db db' : Db)
    → any (has_key type id) db.webhooks ≡ b
    → upsert_webhook b type id i db ≡ ok (tt, db')
    → (db'.invoices ≡ db.invoices) × (any (has_key type id) db'.webhooks ≡ true)
unfolding upsert_webhook create_webhook
upsert_webhook-keeps true type id i db db' e h = let same : db ≡ db' = cc h in rw (← same) (refl, e)
upsert_webhook-keeps false type id i db db' e h =
    let row : WebhookEvent = record {
      id = db.next_id;
      merchant_id = i.merchant_id;
      invoice_id = id;
      type = type;
      order_id = i.order_id;
    } in
    let same : (record db { webhooks = db.webhooks ++ row ∷ []; next_id = db.next_id + 1 }) ≡ db' =
      cc h in
    rw (← same) (
      refl,
      any-last (has_key type id) db.webhooks row
          (rw (same_event_refl type) ((==_iff id id).1 refl)),
    )

emit_event_once :
    (id : ℕ) (o : Option WebhookEventType) (db db' : Db)
    → emit_event id o db ≡ ok (tt, db')
    → emit_event id o db' ≡ ok (tt, db')
unfolding emit_event upsert_webhook read_invoice
emit_event_once id none db db' h = refl
emit_event_once id (some type) db db' h =
    let (i, t, first, rest) =
      >>=-eq-ok (read_invoice id)
        (λ (i : Invoice).
          gets (λ (d : Db). any (has_key type id) d.webhooks) >>= λ b. upsert_webhook b type id i)
        db h in
    let (found, same) = read_invoice-found id db i t first in
    let (invoices, present) = upsert_webhook-keeps _ type id i t db' refl rest in
    let found' : find (same_invoice id) db'.invoices ≡ some i = rw (invoices, ← same) found in
    rw (read_invoice, ◌>>=◌, found', present)

-- Asking for the same webhook event again changes nothing: the event of a state of an invoice is
-- recorded once.
pub emit_webhook_once :
    (id : ℕ) (st : InvoiceStatus) (db db' : Db)
    → emit_webhook id st db ≡ ok (tt, db')
    → emit_webhook id st db' ≡ ok (tt, db')
unfolding emit_webhook
emit_webhook_once id st db db' h = emit_event_once id (webhook_event_for_status st) db db' h
