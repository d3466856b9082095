-- ===== src/Worker/Overdue.antt =====
-- What the sweep of apps/worker/src/expiry-sweep.ts leaves behind.
use crypto_payment.Prelude.{
  ℕ, Bool, true, false, Option, none, some, ok, any, find, ◌≡◌, refl, sym, ◌∙◌, ◌⊎◌, inl, inr,
  Bool-cases, ==_iff, ◌==◌, ◌↔◌,
}
use crypto_payment.Prelude.Int.{ℤ}
use crypto_payment.Prelude.Tx.{◌>>=◌, ◌>>◌, lift}
use crypto_payment.Invoice.Status.{
  InvoiceStatus, pending, underpaid, expired, WebhookEventType, created, detected, confirming, paid,
  overpaid, cancelled, failed, refunded, compliance_review_required, late_payment_review,
  reconciliation_required,
}
use crypto_payment.Invoice.StateMachine.{
  is_actor_allowed, webhook_event_for_status, find_rule, same_status, same_actor,
}
use crypto_payment.Invoice.StateMachine.Table.{system}
use crypto_payment.Invoice.StateMachine.Laws.{assert_transition_iff}
use crypto_payment.Monitor.Store.{Db, Invoice, payment_status}
use crypto_payment.Monitor.Records.{
  same_invoice, read_invoice, record_event, has_key, upsert_webhook, create_webhook,
}
use crypto_payment.Monitor.Follows.{find-update_where, found-id, with_update}
use crypto_payment.Worker.ExpirySweep.{
  is_sweepable, is_overdue, expired_row, assert_expiry, emit_expiry, expire_overdue, expire_read,
  expire_one,
}

gate_for_expiry :
    (status : InvoiceStatus) → is_actor_allowed status expired system ≡ is_sweepable status
unfolding is_actor_allowed find_rule same_status same_actor
gate_for_expiry created = refl
gate_for_expiry pending = refl
gate_for_expiry detected = refl
gate_for_expiry confirming = refl
gate_for_expiry paid = refl
gate_for_expiry underpaid = refl
gate_for_expiry overpaid = refl
gate_for_expiry expired = refl
gate_for_expiry cancelled = refl
gate_for_expiry failed = refl
gate_for_expiry refunded = refl
gate_for_expiry compliance_review_required = refl
gate_for_expiry late_payment_review = refl
gate_for_expiry reconciliation_required = refl

-- The query of the sweep asks for the states from which the gate lets the system expire an invoice, and
-- for no other.
pub is_sweepable_iff :
    (status : InvoiceStatus)
    → (is_sweepable status ≡ true) ↔ (is_actor_allowed status expired system ≡ true)
is_sweepable_iff status = (λ h. gate_for_expiry status ∙ h, λ h. sym (gate_for_expiry status) ∙ h)

-- Every invoice is as it was, or was overdue and is expired.
unfoldable pub Swept : ℤ → Db → Db → Type 0
Swept now db db' =
    (id : ℕ) (i : Invoice)
    → find (same_invoice id) db.invoices ≡ some i
    → (find (same_invoice id) db'.invoices ≡ some i)
      ⊎ ((is_overdue now i ≡ true) × (find (same_invoice id) db'.invoices ≡ some (expired_row i)))

expired_not_overdue : (now : ℤ) (i : Invoice) → is_overdue now (expired_row i) ≡ false
unfolding is_overdue is_actor_allowed find_rule same_status same_actor
expired_not_overdue now i = refl

pub Swept-trans : (now : ℤ) (a b c : Db) → Swept now a b → Swept now b c → Swept now a c
unfolding Swept
Swept-trans now a b c p q id i h = elim (p id i h) [
  | inl same ↦ q id i same
  | inr (overdue, found) ↦ elim (q id (expired_row i) found) [
    | inl same ↦ inr (overdue, same)
    | inr (again, found') ↦
        let clash : true ≡ false = sym again ∙ expired_not_overdue now i in cc clash
  ]
]

assert_expiry-ok :
    (status : InvoiceStatus) (db : Db)
    → is_actor_allowed status expired system ≡ true
    → assert_expiry status db ≡ ok (tt, db)
unfolding assert_expiry
assert_expiry-ok status db h =
    let (r, e, same) = (assert_transition_iff status expired system).0.0 h in rw (◌>>=◌, lift, e)

emit_expiry-ok :
    (id : ℕ) (i : Invoice) (o : Option WebhookEventType) (db : Db)
    → (db' : Db) × (emit_expiry id i o db ≡ ok (tt, db')) × (db'.invoices ≡ db.invoices)
unfolding emit_expiry upsert_webhook create_webhook
emit_expiry-ok id i none db = (db, refl, refl)
emit_expiry-ok id i (some type) db = elim (Bool-cases (any (has_key type id) db.webhooks)) [
  | inl there ↦ rw there (db, refl, refl)
  | inr new ↦ rw new (_, refl, refl)
]

record_expiry-ok :
    (id : ℕ) (from : InvoiceStatus) (db : Db)
    → (db' : Db) × (record_event id (payment_status expired) from expired none db ≡ ok (tt, db'))
      × (db'.invoices ≡ db.invoices)
unfolding record_event
record_expiry-ok id from db = (_, refl, refl)

-- An overdue invoice is expired: the call returns, and writes no other invoice.
expire_overdue-ok :
    (id : ℕ) (i : Invoice) (db : Db)
    → is_actor_allowed i.status expired system ≡ true
    → (db' : Db) × (expire_overdue id i db ≡ ok (true, db'))
      × (db'.invoices ≡ (with_update id expired_row db).invoices)
unfolding expire_overdue
expire_overdue-ok id i db allowed =
    let (t, recorded, same) = record_expiry-ok id i.status (with_update id expired_row db) in
    let (db', emitted, same') = emit_expiry-ok id i (webhook_event_for_status expired) t in
    (db', rw (◌>>=◌, ◌>>◌, assert_expiry-ok i.status db allowed, recorded, emitted), same' ∙ same)

overdue_allowed :
    (now : ℤ) (i : Invoice)
    → is_overdue now i ≡ true
    → is_actor_allowed i.status expired system ≡ true
unfolding is_overdue
overdue_allowed now i h = elim (Bool-cases (is_actor_allowed i.status expired system)) [
  | inl allowed ↦ allowed
  | inr refused ↦ cc (rw refused at h)
]

-- The write to the row of one invoice.
update-Swept :
    (now : ℤ) (id : ℕ) (i : Invoice) (db db' : Db)
    → find (same_invoice id) db.invoices ≡ some i
    → is_overdue now i ≡ true
    → db'.invoices ≡ (with_update id expired_row db).invoices
    → Swept now db db'
unfolding Swept
update-Swept now id i db db' found overdue same j x h = elim (Bool-cases (x.id == id)) [
  | inr other ↦
      inl (rw (same, find-update_where id j expired_row (λ y. refl) db.invoices x h, other))
  | inl own ↦
      let at_id = rw (sym (found-id j db.invoices x h) ∙ (==_iff x.id id).0 own) at h in
      let here : x ≡ i = cc (at_id, found) in
      inr (
        rw here overdue,
        rw (same, find-update_where id j expired_row (λ y. refl) db.invoices x h, own),
      )
]

-- The invoice is there, and is not overdue.
unfoldable pub IsResolved : ℤ → Db → ℕ → Type 0
IsResolved now db id =
    (i : Invoice) × (find (same_invoice id) db.invoices ≡ some i) × (is_overdue now i ≡ false)

unfoldable pub IsThere : Db → ℕ → Type 0
IsThere db id = (i : Invoice) × (find (same_invoice id) db.invoices ≡ some i)

pub Swept-IsResolved :
    (now : ℤ) (db db' : Db) (id : ℕ)
    → Swept now db db'
    → IsResolved now db id
    → IsResolved now db' id
unfolding Swept IsResolved
Swept-IsResolved now db db' id swept (i, found, fine) = elim (swept id i found) [
  | inl same ↦ (i, same, fine)
  | inr (overdue, found') ↦ let clash : true ≡ false = sym overdue ∙ fine in cc clash
]

pub Swept-IsThere :
    (now : ℤ) (db db' : Db) (id : ℕ) → Swept now db db' → IsThere db id → IsThere db' id
unfolding Swept IsThere
Swept-IsThere now db db' id swept (i, found) = elim (swept id i found) [
  | inl same ↦ (i, same)
  | inr (overdue, found') ↦ (expired_row i, found')
]

pub expire_one-ok :
    (now : ℤ) (id : ℕ) (db : Db)
    → IsThere db id
    → (b : Bool) × (db' : Db) × (expire_one now id db ≡ ok (b, db'))
      × Swept now db db'
      × IsResolved now db' id
unfolding expire_one expire_read read_invoice IsThere IsResolved Swept
expire_one-ok now id db (i, found) = elim (Bool-cases (is_overdue now i)) [
  | inr fine ↦ (false, db, rw (◌>>=◌, found, fine), λ j x h. inl h, (i, found, fine))
  | inl overdue ↦
      let (db', e, same) = expire_overdue-ok id i db (overdue_allowed now i overdue) in
      let own : (i.id == id) ≡ true = (==_iff i.id id).1 (found-id id db.invoices i found) in
      (
        true,
        db',
        rw (◌>>=◌, found, overdue, e),
        update-Swept now id i db db' found overdue same,
        (
          expired_row i,
          rw (same, find-update_where id id expired_row (λ y. refl) db.invoices i found, own),
          expired_not_overdue now i,
        ),
      )
]
