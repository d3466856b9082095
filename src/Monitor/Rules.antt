-- ===== src/Monitor/Rules.antt =====
-- Rules on the handlers of apps/blockchain-monitor/src/monitor.service.ts, one for each way in which
-- they are composed: what a call that returns does to the states of the invoices.
use crypto_payment.Prelude.{
  ℕ, Bool, true, false, Option, none, some, List, find, ok, err, ◌≡◌, refl, ap, ◌∙◌, inl, inr,
  Bool-cases, Option-cases, if◌then◌else◌,
}
use crypto_payment.Prelude.Tx.{
  ◌>>=◌, ◌>>◌, >>=-eq-ok, for_each, for_each_keeps, gets, when, each_in_transaction,
  each_in_transaction_keeps,
}
use crypto_payment.Invoice.Status.{InvoiceStatus}
use crypto_payment.Invoice.StateMachine.{is_actor_allowed}
use crypto_payment.Invoice.StateMachine.Table.{monitor}
use crypto_payment.Invoice.StateMachine.Laws.{here, next, assert_transition-cases}
use crypto_payment.Monitor.Store.{Db, Invoice, MonitorTx, invalid_transition, record_not_found}
use crypto_payment.Monitor.Records.{same_invoice, update_invoice, assert_monitor, read_invoice}
use crypto_payment.Monitor.Same.{Same, Same-pure}
use crypto_payment.Monitor.Follows.{
  Follows, Follows-trans, same_invoices-Follows, KeepsId, At, with_update, with_update-Follows,
  with_update-At, found-id,
}

abbrev pub invoices_of : Db → List Invoice
invoices_of db = db.invoices

module _ {A : Type 0} where
  -- The call writes no invoice.
  abbrev pub Quiet : MonitorTx A → Type 0
  Quiet m = Same invoices_of m

  -- The call moves invoices as the gate permits the monitor.
  unfoldable pub Moves : MonitorTx A → Type 0
  Moves m = (s : Db) (a : A) (s' : Db) → m s ≡ ok (a, s') → Follows s s'

  -- The same where the invoice `id` is in the state `st` before the call.
  unfoldable pub MovesFrom : ℕ → InvoiceStatus → MonitorTx A → Type 0
  MovesFrom id st m = (s : Db) (a : A) (s' : Db) → At id st s → m s ≡ ok (a, s') → Follows s s'

  pub Quiet-Moves : (m : MonitorTx A) → Quiet m → Moves m
  unfolding Same Moves
  Quiet-Moves m q s a s' h = same_invoices-Follows s s' (q s a s' h)

  pub Moves-MovesFrom :
      (id : ℕ) (st : InvoiceStatus) (m : MonitorTx A) → Moves m → MovesFrom id st m
  unfolding Moves MovesFrom
  Moves-MovesFrom id st m k s a s' at h = k s a s' h

  pub Moves-if : (b : Bool) (m n : MonitorTx A) → Moves m → Moves n → Moves (if b then m else n)
  Moves-if true m n p q = p
  Moves-if false m n p q = q

  pub MovesFrom-if :
      (b : Bool) (id : ℕ) (st : InvoiceStatus) (m n : MonitorTx A)
      → MovesFrom id st m
      → MovesFrom id st n
      → MovesFrom id st (if b then m else n)
  MovesFrom-if true id st m n p q = p
  MovesFrom-if false id st m n p q = q

module _ {A B : Type 0} (m : MonitorTx A) (f : A → MonitorTx B) where
  pub Moves-bind : Moves m → ((a : A) → Moves (f a)) → Moves (m >>= f)
  unfolding Moves
  Moves-bind p q s b s' h =
      let (a, t, first, rest) = >>=-eq-ok m f s h in
      Follows-trans s t s' (p s a t first) (q a t b s' rest)

  pub MovesFrom-Quiet :
      (id : ℕ) (st : InvoiceStatus)
      → Quiet m
      → ((a : A) → MovesFrom id st (f a))
      → MovesFrom id st (m >>= f)
  unfolding Same MovesFrom At
  MovesFrom-Quiet id st p q s b s' (i, found, e) h =
      let (a, t, first, rest) = >>=-eq-ok m f s h in
      let same = p s a t first in
      Follows-trans s t s' (same_invoices-Follows s t same) (q a t b s' (i, rw same found, e) rest)

  -- A move, then calls that each keep to the gate.
  pub MovesFrom-then :
      (id : ℕ) (st : InvoiceStatus)
      → MovesFrom id st m
      → ((a : A) → Moves (f a))
      → MovesFrom id st (m >>= f)
  unfolding Moves MovesFrom
  MovesFrom-then id st p q s b s' at h =
      let (a, t, first, rest) = >>=-eq-ok m f s h in
      Follows-trans s t s' (p s a t at first) (q a t b s' rest)

pub Moves-when : (b : Bool) (m : MonitorTx (Unit {0})) → Moves m → Moves (when b m)
Moves-when true m k = k
Moves-when false m k = Quiet-Moves _ (Same-pure invoices_of tt)

pub MovesFrom-when :
    (b : Bool) (id : ℕ) (st : InvoiceStatus) (m : MonitorTx (Unit {0}))
    → MovesFrom id st m
    → MovesFrom id st (when b m)
MovesFrom-when true id st m k = k
MovesFrom-when false id st m k = Moves-MovesFrom id st _ (Quiet-Moves _ (Same-pure invoices_of tt))

-- An invoice that was looked up, if there is one.
pub Moves-lookup :
    {A : Type 0} (look : Db → Option Invoice) (f : Option Invoice → MonitorTx A)
    → ((s : Db) (i : Invoice) → look s ≡ some i → find (same_invoice i.id) s.invoices ≡ some i)
    → Moves (f none)
    → ((i : Invoice) → MovesFrom i.id i.status (f (some i)))
    → Moves (gets look >>= f)
unfolding Moves MovesFrom At
Moves-lookup look f held absent present s a s' h = elim (Option-cases (look s)) [
  | inl e ↦ absent s a s' (rw (◌>>=◌, e) at h)
  | inr (i, e) ↦ present i s a s' (i, held s i e, refl) (rw (◌>>=◌, e) at h)
]

pub Moves-for_each :
    {A : Type 0} (xs : List A) (body : A → MonitorTx (Unit {0}))
    → ((x : A) → Moves (body x))
    → Moves (for_each xs body)
unfolding Moves
Moves-for_each xs body k s a s' h =
    for_each_keeps (λ d. Follows s d) body (λ x t t' e p. Follows-trans s t t' p (k x t tt t' e)) xs
      s s' h (same_invoices-Follows s s refl)

pub Moves-each :
    {A : Type 0} (xs : List A) (body : A → MonitorTx (Unit {0}))
    → ((x : A) → Moves (body x))
    → (s : Db) → Follows s (each_in_transaction xs body s).0
unfolding Moves
Moves-each xs body k s =
    each_in_transaction_keeps (λ d. Follows s d) body
      (λ x t t' e p. Follows-trans s t t' p (k x t tt t' e)) xs s (same_invoices-Follows s s refl)

-- What the gate has let through is permitted.
assert_monitor-allowed :
    (from to : InvoiceStatus) (s : Db) (u : Unit {0}) (s' : Db)
    → assert_monitor from to s ≡ ok (u, s')
    → (is_actor_allowed from to monitor ≡ true) × (s ≡ s')
unfolding assert_monitor
assert_monitor-allowed from to s u s' h = elim (Bool-cases (is_actor_allowed from to monitor)) [
  | inl allowed ↦
      let (r, e, _) = (assert_transition-cases from to monitor).0 allowed in
      let same : s ≡ s' = cc (rw (◌>>=◌, e) at h) in (allowed, same)
  | inr refused ↦
      let (r, e, _, _) = (assert_transition-cases from to monitor).1 refused in
      let absurd : err (invalid_transition r) ≡ ok (u, s') = rw (◌>>=◌, e) at h in cc absurd
]

-- The three lines with which a handler changes a state: the gate, the update, and what follows.
pub MovesFrom-change :
    {A : Type 0} (id : ℕ) (from to : InvoiceStatus) (f : Invoice → Invoice) (rest : MonitorTx A)
    → KeepsId f
    → ((i : Invoice) → (f i).status ≡ to)
    → MovesFrom id to rest
    → MovesFrom id from (assert_monitor from to >> (update_invoice id f >> rest))
unfolding MovesFrom
MovesFrom-change id from to f rest keeps sets k s a s' at h =
    let (u, t, first, second) =
      >>=-eq-ok (assert_monitor from to) (λ _. update_invoice id f >> rest) s h in
    let (allowed, same) = assert_monitor-allowed from to s u t first in
    let second' : rest (with_update id f s) ≡ ok (a, s') = rw (← same) at second in
    Follows-trans s (with_update id f s) s'
      (with_update-Follows id f from s keeps at
        (λ i e. rw (sets i, e) (next to monitor refl allowed here)))
      (k (with_update id f s) a s' (with_update-At id f from to s keeps at (λ i e. sets i)) second')

-- An update that leaves the state.
pub MovesFrom-update :
    (id : ℕ) (st : InvoiceStatus) (f : Invoice → Invoice)
    → KeepsId f
    → ((i : Invoice) → (f i).status ≡ i.status)
    → MovesFrom id st (update_invoice id f)
unfolding MovesFrom
MovesFrom-update id st f keeps leaves s a s' at h =
    let same : with_update id f s ≡ s' = cc h in
    rw (← same) (with_update-Follows id f st s keeps at (λ i e. rw (leaves i) here))

pub read_invoice-found :
    (id : ℕ) (s : Db) (i : Invoice) (t : Db)
    → read_invoice id s ≡ ok (i, t)
    → (find (same_invoice id) s.invoices ≡ some i) × (s ≡ t)
unfolding read_invoice
read_invoice-found id s i t h = elim (Option-cases (find (same_invoice id) s.invoices)) [
  | inl absent ↦
      let absurd : err (record_not_found id) ≡ ok (i, t) = rw (◌>>=◌, absent) at h in cc absurd
  | inr (j, found) ↦
      let same : ok (j, s) ≡ ok (i, t) = rw (◌>>=◌, found) at h in
      let same_i : j ≡ i = cc same in
      let same_s : s ≡ t = cc same in (found ∙ ap some same_i, same_s)
]

-- An invoice that was just read is in the state that was read.
pub Moves-read_invoice :
    {A : Type 0} (id : ℕ) (f : Invoice → MonitorTx A)
    → ((i : Invoice) → i.id ≡ id → MovesFrom i.id i.status (f i))
    → Moves (read_invoice id >>= f)
unfolding Moves MovesFrom At
Moves-read_invoice id f k s a s' h =
    let (i, t, first, second) = >>=-eq-ok (read_invoice id) f s h in
    let (found, same) = read_invoice-found id s i t first in
    let own = found-id id s.invoices i found in
    k i own s a s' (i, rw own found, refl) (rw (← same) at second)
