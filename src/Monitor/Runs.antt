-- ===== src/Monitor/Runs.antt =====
-- Any sequence of calls of apps/blockchain-monitor/src/monitor.service.ts, each in the order in which the
-- monitor makes them.
use crypto_payment.Prelude.{
  ℕ, String, true, Option, some, List, [], ◌∷◌, Result, ok, err, ◌≡◌, refl, ◌⊎◌, inl, arith, find,
}
use crypto_payment.Prelude.Int.{ℤ}
use crypto_payment.Invoice.Status.{InvoiceStatus, paid, reconciliation_required}
use crypto_payment.Invoice.StateMachine.{is_actor_allowed, find_rule, same_actor}
use crypto_payment.Invoice.StateMachine.Table.{monitor}
use crypto_payment.Invoice.StateMachine.Laws.{Reaches, here, next}
use crypto_payment.Monitor.Store.{Db, Invoice, MonitorError}
use crypto_payment.Monitor.Records.{same_invoice}
use crypto_payment.Monitor.Follows.{IsMonitor, Follows, Follows-trans, same_invoices-Follows}
use crypto_payment.Monitor.Rules.{Moves, Moves-each}
use crypto_payment.Monitor.Settlement.{update_confirmations}
use crypto_payment.Monitor.Reorg.{handle_reorg}
use crypto_payment.Monitor.Chain.{ChainTransaction, ParsedTransfer}
use crypto_payment.Monitor.Detection.{process_transaction}
use crypto_payment.Monitor.History.{process_transaction-Moves}
use crypto_payment.Monitor.Advances.{confirm_transfer-Moves, orphan_transaction-Moves}

-- The calls, each with what the chain adapter answers at the time.
pub data Call : Type 0 where
  process : Option ChainTransaction → List ParsedTransfer → Call
  update : (String → ℤ) → Call
  reorg : ℤ → Call

-- A transaction that throws leaves the store as it was.
abbrev pub committed : Db → Result MonitorError (Unit {0} × Db) → Db
committed db (ok (u, db')) = db'
committed db (err e) = db

module _ (grace : ℤ) (network : String) where
  unfoldable pub run_call : ℤ → Call → Db → Db
  run_call now (process chain_tx transfers) db =
      committed db (process_transaction grace now network chain_tx transfers db)
  run_call now (update get_confirmations) db =
      (update_confirmations get_confirmations now network db).0
  run_call now (reorg from_block) db = (handle_reorg now network from_block db).0

  unfoldable pub run : List (ℤ × Call) → Db → Db
  run [] db = db
  run ((now, call) ∷ calls) db = run calls (run_call now call db)

  committed-Follows :
      (db : Db) (r : Result MonitorError (Unit {0} × Db))
      → ((db' : Db) → r ≡ ok (tt, db') → Follows db db')
      → Follows db (committed db r)
  committed-Follows db (ok (u, db')) k = k db' refl
  committed-Follows db (err e) k = same_invoices-Follows db db refl

  run_call-Follows : (now : ℤ) (c : Call) (db : Db) → Follows db (run_call now c db)
  unfolding run_call update_confirmations handle_reorg Moves
  run_call-Follows now (process c ts) db =
      committed-Follows db _ (λ db' h. process_transaction-Moves grace now network c ts db tt db' h)
  run_call-Follows now (update get) db = Moves-each _ _ (confirm_transfer-Moves get now) db
  run_call-Follows now (reorg b) db = Moves-each _ _ (orphan_transaction-Moves now) db

  run-Follows : (calls : List (ℤ × Call)) (db : Db) → Follows db (run calls db)
  unfolding run
  run-Follows [] db = same_invoices-Follows db db refl
  run-Follows ((now, c) ∷ calls) db =
      Follows-trans db (run_call now c db) (run calls (run_call now c db))
        (run_call-Follows now c db) (run-Follows calls (run_call now c db))

  -- Over any sequence of calls, with any answers of the chain and some of the calls ending in a throw,
  -- no invoice is lost, and the state of each is reached from its state before by changes that the gate
  -- permits the monitor.
  pub run_reaches :
      (calls : List (ℤ × Call)) (db : Db) (id : ℕ) {i : Invoice}
      → find (same_invoice id) db.invoices ≡ some i
      → (i' : Invoice) × (find (same_invoice id) (run calls db).invoices ≡ some i')
        × Reaches IsMonitor i.status i'.status
  unfolding Follows
  run_reaches calls db id {i} h = run-Follows calls db id i h

  abbrev Kept : InvoiceStatus → Type 0
  Kept st = (st ≡ paid) ⊎ (st ≡ reconciliation_required)

  Kept-step : (s t : InvoiceStatus) → is_actor_allowed s t monitor ≡ true → Kept s → Kept t
  unfolding is_actor_allowed find_rule same_actor
  Kept-step s t h k = ground arith

  Kept-stays : {s t : InvoiceStatus} → Reaches IsMonitor s t → Kept s → Kept t
  Kept-stays here k = k
  Kept-stays (next {s} t a own h r) k = Kept-stays r (Kept-step s t (rw own at h) k)

  -- An invoice that is paid is never taken back to an unpaid state by the monitor: over any sequence of
  -- calls, reorganisations of the chain included, it stays `PAID` or it is `RECONCILIATION_REQUIRED`.
  pub paid_invoice_survives :
      (calls : List (ℤ × Call)) (db : Db) (id : ℕ) {i : Invoice}
      → find (same_invoice id) db.invoices ≡ some i
      → i.status ≡ paid
      → (i' : Invoice) × (find (same_invoice id) (run calls db).invoices ≡ some i')
        × ((i'.status ≡ paid) ⊎ (i'.status ≡ reconciliation_required))
  paid_invoice_survives calls db id h e =
      let (i', found, r) = run_reaches calls db id h in (i', found, Kept-stays r (inl e))
