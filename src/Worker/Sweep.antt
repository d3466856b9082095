-- ===== src/Worker/Sweep.antt =====
-- One sweep of apps/worker/src/expiry-sweep.ts, over its batch of candidates.
use crypto_payment.Prelude.{
  ℕ, suc, List, [], ◌∷◌, some, ok, All, find, map, ◌≡◌, refl, inl, inr, Bool-cases, ==_iff, ◌==◌,
  if◌then◌else◌,
}
use crypto_payment.Prelude.Every.{All-filter, All-take, All-map}
use crypto_payment.Prelude.Int.{ℤ}
use crypto_payment.Prelude.Int.{ltb_ℤ}
use crypto_payment.Monitor.Store.{Db, Invoice}
use crypto_payment.Monitor.Records.{same_invoice}
use crypto_payment.Worker.ExpirySweep.{
  is_candidate, insert_by_deadline, sort_by_deadline, candidates, sweep_each,
  sweep_expired_invoices,
}
use crypto_payment.Worker.Overdue.{
  Swept, Swept-trans, IsResolved, IsThere, Swept-IsResolved, Swept-IsThere, expire_one-ok,
}

insert-All :
    (P : Invoice → Type 0) (i : Invoice) (js : List Invoice)
    → P i
    → All P js
    → All P (insert_by_deadline i js)
unfolding insert_by_deadline
insert-All P i [] p ps = (p, tt)
insert-All P i (j ∷ js) p (q, qs) = elim (Bool-cases (ltb_ℤ j.expires_at i.expires_at)) [
  | inl h ↦ rw h (q, insert-All P i js p qs)
  | inr h ↦ rw h (p, (q, qs))
]

sort-All : (P : Invoice → Type 0) (is : List Invoice) → All P is → All P (sort_by_deadline is)
unfolding sort_by_deadline
sort-All P [] ps = tt
sort-All P (i ∷ is) (p, ps) = insert-All P i (sort_by_deadline is) p (sort-All P is ps)

map-All :
    (P : ℕ → Type 0) (is : List Invoice)
    → All (λ (i : Invoice). P i.id) is
    → All P (map (λ (i : Invoice). i.id) is)
map-All P [] ps = tt
map-All P (i ∷ is) (p, ps) = (p, map-All P is ps)

abbrev Found : List Invoice → Invoice → Type 0
Found is i = (x : Invoice) × (find (same_invoice i.id) is ≡ some x)

Found-cons : (x : Invoice) (is : List Invoice) (i : Invoice) → Found is i → Found (x ∷ is) i
Found-cons x is i (y, found) = elim (Bool-cases (x.id == i.id)) [
  | inl own ↦ (x, rw own)
  | inr other ↦ (y, rw (other, found))
]

rows-Found : (is : List Invoice) → All (Found is) is
rows-Found [] = tt
rows-Found (x ∷ is) = (
  (x, rw ((==_iff x.id x.id).1 refl)),
  All-map (Found is) (Found (x ∷ is)) (Found-cons x is) is (rows-Found is),
)

candidates-IsThere : (now : ℤ) (batch : ℕ) (db : Db) → All (IsThere db) (candidates now batch db)
unfolding candidates IsThere
candidates-IsThere now batch db = map-All (IsThere db) _ (
    All-take (Found db.invoices) batch _ (
      sort-All (Found db.invoices) _ (
        All-map _ (Found db.invoices) (λ i p. p.0) _
          (All-filter (Found db.invoices) (is_candidate now) db.invoices
            (rows-Found db.invoices)))))

Swept-refl : (now : ℤ) (db : Db) → Swept now db db
unfolding Swept
Swept-refl now db id i h = inl h

sweep_each-ok :
    (now : ℤ) (ids : List ℕ) (count : ℕ) (db : Db)
    → All (IsThere db) ids
    → (db' : Db) × (n : ℕ) × (sweep_each now ids count db ≡ (db', ok n))
      × Swept now db db'
      × All (IsResolved now db') ids
unfolding sweep_each
sweep_each-ok now [] count db there = (db, count, refl, Swept-refl now db, tt)
sweep_each-ok now (id ∷ ids) count db (here, there) =
    let (b, t, e, swept, resolved) = expire_one-ok now id db here in
    let there' = All-map (IsThere db) (IsThere t) (λ j. Swept-IsThere now db t j swept) ids there in
    let (db', n, e', swept', rest) =
      sweep_each-ok now ids (if b then suc count else count) t there' in
    (
      db',
      n,
      rw (sweep_each, e, e'),
      Swept-trans now db t db' swept swept',
      (Swept-IsResolved now t db' id swept' resolved, rest),
    )

-- A sweep never throws. Every invoice is left as it was or, where it was overdue, EXPIRED; and none of
-- the batch that the sweep took is overdue afterwards.
pub sweep_resolves :
    (now : ℤ) (batch : ℕ) (db : Db)
    → (db' : Db) × (n : ℕ) × (sweep_expired_invoices now batch db ≡ (db', ok n))
      × Swept now db db'
      × All (IsResolved now db') (candidates now batch db)
unfolding sweep_expired_invoices
sweep_resolves now batch db =
    sweep_each-ok now (candidates now batch db) 0 db (candidates-IsThere now batch db)
