-- ===== src/Webhooks/RetryOrder.antt =====
-- The order in which packages/webhooks/src/dispatcher.ts takes the retries that are due at two
-- times.
use crypto_payment.Prelude.{
  ℕ, zero, suc, ◌-◌, ◌≤◌, Bool, true, false, not, ◌&&◌, Option, none, some, List, [], ◌∷◌, ◌++◌,
  All, filter, take, length, ◌≡◌, ◌∙◌, refl, ap, inl, inr, Bool-cases, arith,
}
use crypto_payment.Prelude.Int.{ℤ, leb_ℤ, ltb_ℤ, ◌≤ℤ◌}
use crypto_payment.Webhooks.Outbox.{Delivery, failed}
use crypto_payment.Webhooks.Dispatcher.{has_status}
use crypto_payment.Webhooks.Poll.{is_before, is_due_retry, is_later, insert_by_retry, sort_by_retry}

-- Due before `now`, and not.
abbrev Early : ℤ → Delivery → Type 0
Early now d = is_before now d.next_retry_at ≡ true

abbrev Late : ℤ → Delivery → Type 0
Late now d = (at : ℤ) × (d.next_retry_at ≡ some at) × (leb_ℤ at now ≡ false)

late_after : (now a b : ℤ) → leb_ℤ a now ≡ true → leb_ℤ b now ≡ false → ltb_ℤ a b ≡ true
late_after now a b p q = ground arith

early_first : (now a b : ℤ) → leb_ℤ a now ≡ true → leb_ℤ b now ≡ false → ltb_ℤ b a ≡ false
early_first now a b p q = ground arith

insert_by :
    (now : ℤ) (x y : Option ℤ)
    → is_before now x ≡ true
    → (b : ℤ) → y ≡ some b
    → leb_ℤ b now ≡ false
    → (is_later y x ≡ true) × (is_later x y ≡ false)
insert_by now none y p b e q = cc p
insert_by now (some a) y p b e q = rw e (late_after now a b p q, early_first now a b p q)

insert-Early :
    (now : ℤ) (d : Delivery) (xs ys : List Delivery)
    → Early now d
    → All (Late now) ys
    → insert_by_retry d (xs ++ ys) ≡ insert_by_retry d xs ++ ys
unfolding insert_by_retry
insert-Early now d [] [] early late = refl
insert-Early now d [] (y ∷ ys) early ((b, e, q), late) =
    let (behind, before) = insert_by now d.next_retry_at y.next_retry_at early b e q in
    rw before refl
insert-Early now d (x ∷ xs) ys early late =
    elim (Bool-cases (is_later d.next_retry_at x.next_retry_at)) [
      | inl h ↦ rw (h, insert-Early now d xs ys early late) refl
      | inr h ↦ rw h refl
    ]

insert-Late :
    (now : ℤ) (d : Delivery) (xs ys : List Delivery)
    → Late now d
    → All (Early now) xs
    → insert_by_retry d (xs ++ ys) ≡ xs ++ insert_by_retry d ys
unfolding insert_by_retry
insert-Late now d [] ys late early = refl
insert-Late now d (x ∷ xs) ys (b, e, q) (p, early) =
    let (behind, before) = insert_by now x.next_retry_at d.next_retry_at p b e q in
    rw (behind, insert-Late now d xs ys (b, e, q) early) refl

-- A retry that is due at `later` and was not at `now`.
abbrev is_newer : ℤ → ℤ → Delivery → Bool
is_newer now later d = is_due_retry later d && not (is_due_retry now d)

due-Early : (now : ℤ) (d : Delivery) → is_due_retry now d ≡ true → Early now d
due-Early now d h = elim (Bool-cases (has_status failed d)) [
  | inl p ↦ rw p at h
  | inr p ↦ cc (rw p at h)
]

before_later :
    (now later : ℤ) (o : Option ℤ)
    → now ≤ℤ later
    → is_before now o ≡ true
    → is_before later o ≡ true
before_later now later none le h = cc h
before_later now later (some at) le h = ground arith

due_later :
    (now later : ℤ) (d : Delivery)
    → now ≤ℤ later
    → is_due_retry now d ≡ true
    → is_due_retry later d ≡ true
due_later now later d le h = elim (Bool-cases (has_status failed d)) [
  | inl p ↦ rw p (before_later now later d.next_retry_at le (due-Early now d h))
  | inr p ↦ cc (rw p at h)
]

not_before :
    (now later : ℤ) (o : Option ℤ)
    → is_before later o ≡ true
    → is_before now o ≡ false
    → (at : ℤ) × (o ≡ some at) × (leb_ℤ at now ≡ false)
not_before now later none h k = cc h
not_before now later (some at) h k = (at, refl, k)

newer-Late :
    (now later : ℤ) (d : Delivery)
    → is_due_retry later d ≡ true
    → is_due_retry now d ≡ false
    → Late now d
newer-Late now later d h k = elim (Bool-cases (has_status failed d)) [
  | inl p ↦ not_before now later d.next_retry_at (rw p at h) (rw p at k)
  | inr p ↦ cc (rw p at h)
]

pub insert-All :
    (P : Delivery → Type 0) (d : Delivery) (es : List Delivery)
    → P d
    → All P es
    → All P (insert_by_retry d es)
unfolding insert_by_retry
insert-All P d [] p ps = (p, tt)
insert-All P d (e ∷ es) p (q, qs) = elim (Bool-cases (is_later d.next_retry_at e.next_retry_at)) [
  | inl h ↦ rw h (q, insert-All P d es p qs)
  | inr h ↦ rw h (p, (q, qs))
]

abbrev early : ℤ → List Delivery → List Delivery
early now ds = sort_by_retry (filter (is_due_retry now) ds)

abbrev late : ℤ → ℤ → List Delivery → List Delivery
late now later ds = sort_by_retry (filter (is_newer now later) ds)

module _ (now later : ℤ) (le : now ≤ℤ later) where
  -- The retries that are due later, sorted: first those that were due before.
  sort-split :
      (ds : List Delivery)
      → (sort_by_retry (filter (is_due_retry later) ds) ≡ early now ds ++ late now later ds)
        × All (Early now) (early now ds)
        × All (Late now) (late now later ds)
  unfolding sort_by_retry
  sort-split [] = (refl, tt, tt)
  sort-split (d ∷ ds) =
      let (same, es, ls) = sort-split ds in
      elim (Bool-cases (is_due_retry now d)) [
        | inl h ↦
            let first = due-Early now d h in
            rw (h, due_later now later d le h)
              (
                ap (insert_by_retry d) same
                    ∙ insert-Early now d (early now ds) (late now later ds) first ls,
                insert-All (Early now) d (early now ds) first es,
                ls,
              )
        | inr h ↦ elim (Bool-cases (is_due_retry later d)) [
          | inl k ↦
              let second = newer-Late now later d k h in
              rw (h, k)
                (
                  ap (insert_by_retry d) same
                      ∙ insert-Late now d (early now ds) (late now later ds) second es,
                  es,
                  insert-All (Late now) d (late now later ds) second ls,
                )
          | inr k ↦ rw (h, k) (same, es, ls)
        ]
      ]

take-append :
    (n : ℕ) (xs ys : List Delivery) → take n (xs ++ ys) ≡ take n xs ++ take (n - length xs) ys
take-append zero xs ys = ground arith
take-append (suc n) [] ys = let whole : suc n ≡ suc n - 0 = omega arith in ap (λ m. take m ys) whole
take-append (suc n) (x ∷ xs) ys =
    rw (take-append n xs ys) (ap (λ m. (x ∷ take n xs) ++ take m ys) (omega arith))

length-take :
    (n : ℕ) (xs : List Delivery) → (length (take n xs) ≤ n) × (length (take n xs) ≤ length xs)
length-take zero xs = (omega arith, omega arith)
length-take (suc n) [] = (omega arith, omega arith)
length-take (suc n) (x ∷ xs) = let (a, b) = length-take n xs in (omega (arith, a), omega (arith, b))

-- A batch of due retries is the beginning of the batch of any later time: newer ones only fill it up.
pub batch_begins :
    (batch_size : ℕ) (now later : ℤ) (ds : List Delivery)
    → now ≤ℤ later
    → let batch = take batch_size (sort_by_retry (filter (is_due_retry now) ds)) in
      (rest : List Delivery) × (take batch_size (sort_by_retry (filter (is_due_retry later) ds))
        ≡ batch ++ rest)
      × (length rest ≤ batch_size - length batch)
batch_begins batch_size now later ds le =
    let (same, es, ls) = sort-split now later le ds in
    let room = batch_size - length (early now ds) in
    let (short, within) = length-take batch_size (early now ds) in
    let (few, all) = length-take room (late now later ds) in
    (
      take room (late now later ds),
      ap (take batch_size) same ∙ take-append batch_size (early now ds) (late now later ds),
      omega (arith, few, short, within),
    )
