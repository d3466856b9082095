-- ===== src/Monitor/Follows.antt =====
-- What the handlers of apps/blockchain-monitor/src/monitor.service.ts do to the states of the invoices:
-- rules that follow the handlers' own composition.
use crypto_payment.Prelude.{
  ℕ, true, some, List, [], ◌∷◌, ◌==◌, find, update_where, ◌≡◌, sym, ap, ◌∙◌, inl, inr, Bool-cases,
  if◌then◌else◌, ==_iff,
}
use crypto_payment.Invoice.Status.{InvoiceStatus}
use crypto_payment.Invoice.StateMachine.Table.{TransitionActor, monitor}
use crypto_payment.Invoice.StateMachine.Laws.{Reaches, here, next}
use crypto_payment.Monitor.Store.{Db, Invoice}
use crypto_payment.Monitor.Records.{same_invoice}

abbrev pub IsMonitor : TransitionActor → Type 0
IsMonitor a = a ≡ monitor

pub Reaches-trans :
    {P : TransitionActor → Type 0} {s t u : InvoiceStatus}
    → Reaches P s t
    → Reaches P t u
    → Reaches P s u
Reaches-trans here q = q
Reaches-trans (next t a p h r) q = next t a p h (Reaches-trans r q)

-- Every invoice is still there, and its state was reached by changes that the gate permits the monitor.
unfoldable pub Follows : Db → Db → Type 0
Follows s s' =
    (id : ℕ) (i : Invoice)
    → find (same_invoice id) s.invoices ≡ some i
    → (i' : Invoice) × (find (same_invoice id) s'.invoices ≡ some i')
      × Reaches IsMonitor i.status i'.status

pub Follows-trans : (s t u : Db) → Follows s t → Follows t u → Follows s u
unfolding Follows
Follows-trans s t u p q id i h =
    let (j, found, r) = p id i h in
    let (k, found', r') = q id j found in (k, found', Reaches-trans r r')

pub same_invoices-Follows : (s s' : Db) → s'.invoices ≡ s.invoices → Follows s s'
unfolding Follows
same_invoices-Follows s s' e id i h = (i, rw e h, here)

-- The write of one row, which keeps its id.
abbrev pub written : ℕ → (Invoice → Invoice) → Invoice → Invoice
written j f i = if i.id == j then f i else i

abbrev pub KeepsId : (Invoice → Invoice) → Type 0
KeepsId f = (i : Invoice) → (f i).id ≡ i.id

written-id : (j : ℕ) (f : Invoice → Invoice) → KeepsId f → (i : Invoice) → (written j f i).id ≡ i.id
written-id j f keeps i = elim (Bool-cases (i.id == j)) [ inl e ↦ rw e (keeps i) | inr e ↦ rw e ]

-- A write to the invoice `j`, as seen at `id`.
pub find-update_where :
    (j id : ℕ) (f : Invoice → Invoice)
    → KeepsId f
    → (is : List Invoice) (i : Invoice) → find (same_invoice id) is ≡ some i
    → find (same_invoice id) (update_where (same_invoice j) f is) ≡ some (written j f i)
find-update_where j id f keeps [] i h = cc h
find-update_where j id f keeps (x ∷ xs) i h = elim (Bool-cases (x.id == id)) [
  | inl e ↦
      let same : x ≡ i = cc (rw e at h) in
      rw (written-id j f keeps x, e) (ap (λ (y : Invoice). some (written j f y)) same)
  | inr e ↦ rw (written-id j f keeps x, e) (find-update_where j id f keeps xs i (rw e at h))
]

-- The store holds the invoice `id`, in the state `st`.
unfoldable pub At : ℕ → InvoiceStatus → Db → Type 0
At id st s = (i : Invoice) × (find (same_invoice id) s.invoices ≡ some i) × (i.status ≡ st)

abbrev pub with_update : ℕ → (Invoice → Invoice) → Db → Db
with_update j f s = record s { invoices = update_where (same_invoice j) f s.invoices }

pub found-id :
    (id : ℕ) (is : List Invoice) (i : Invoice) → find (same_invoice id) is ≡ some i → i.id ≡ id
found-id id [] i h = cc h
found-id id (x ∷ xs) i h = elim (Bool-cases (x.id == id)) [
  | inl e ↦ let same : x ≡ i = cc (rw e at h) in rw (← same) ((==_iff x.id id).0 e)
  | inr e ↦ found-id id xs i (rw e at h)
]

pub with_update-Follows :
    (id : ℕ) (f : Invoice → Invoice) (st : InvoiceStatus) (s : Db)
    → KeepsId f
    → At id st s
    → ((i : Invoice) → i.status ≡ st → Reaches IsMonitor i.status (f i).status)
    → Follows s (with_update id f s)
unfolding Follows At
with_update-Follows id f st s keeps (i0, found, e0) moves j i h = (
  written id f i,
  find-update_where id j f keeps s.invoices i h,
  elim (Bool-cases (i.id == id)) [
    | inl e ↦ rw e (
        let at_id = rw (sym (found-id j s.invoices i h) ∙ (==_iff i.id id).0 e) at h in
        let same : i ≡ i0 = cc (at_id, found) in moves i (ap (λ (y : Invoice). y.status) same ∙ e0))
    | inr e ↦ rw e here
  ],
)

pub with_update-At :
    (id : ℕ) (f : Invoice → Invoice) (st to : InvoiceStatus) (s : Db)
    → KeepsId f
    → At id st s
    → ((i : Invoice) → i.status ≡ st → (f i).status ≡ to)
    → At id to (with_update id f s)
unfolding At
with_update-At id f st to s keeps (i, found, e) moves =
    let own : (i.id == id) ≡ true = (==_iff i.id id).1 (found-id id s.invoices i found) in
    (f i, rw own at (find-update_where id id f keeps s.invoices i found), moves i e)
