-- ===== src/Webhooks/Rooms.antt =====
-- How many rows the unique key of `webhook_deliveries` and the budget of an endpoint leave to an event.
use crypto_payment.Prelude.{
  ℕ, ◌≤◌, Bool, true, false, ◌&&◌, List, [], ◌∷◌, any, map, length, All, ◌==◌, ◌≡◌, ◌∙◌, refl, sym,
  inl, inr, Bool-cases, arith,
}
use crypto_payment.Prelude.Every.{All-filter, All-map}
use crypto_payment.Webhooks.Outbox.{Delivery}
use crypto_payment.Webhooks.Rows.{IsWithinBudget}
use crypto_payment.Webhooks.Keys.{
  key_of, same_key, IsDistinct, rows_of, attempts_of, distinct_bounded,
}

module _ (event_id endpoint_id : ℕ) where
  abbrev is_row : Delivery → Bool
  is_row d = d.event_id == event_id && d.endpoint_id == endpoint_id

  is_row_key :
      (d x : Delivery)
      → is_row d ≡ true
      → is_row x ≡ true
      → same_key (key_of d) (key_of x) ≡ (d.attempt == x.attempt)
  is_row_key d x p q = ground arith

  attempt_apart :
      (d : Delivery) (xs : List Delivery)
      → is_row d ≡ true
      → any (same_key (key_of d)) (map key_of xs) ≡ false
      → any (λ a. d.attempt == a) (attempts_of (rows_of event_id endpoint_id xs)) ≡ false
  attempt_apart d [] p away = refl
  attempt_apart d (x ∷ xs) p away = elim (Bool-cases (same_key (key_of d) (key_of x))) [
    | inl same ↦ cc (rw same at away)
    | inr other ↦
        let rest = attempt_apart d xs p (rw other at away) in
        elim (Bool-cases (is_row x)) [
          | inl q ↦ rw (q, sym (is_row_key d x p q) ∙ other) rest
          | inr q ↦ rw q rest
        ]
  ]

  attempts-IsDistinct :
      (xs : List Delivery)
      → IsDistinct same_key (map key_of xs)
      → IsDistinct ◌==◌ (attempts_of (rows_of event_id endpoint_id xs))
  attempts-IsDistinct [] distinct = tt
  attempts-IsDistinct (x ∷ xs) (away, distinct) = elim (Bool-cases (is_row x)) [
    | inl p ↦ rw p (attempt_apart x xs p away, attempts-IsDistinct xs distinct)
    | inr p ↦ rw p (attempts-IsDistinct xs distinct)
  ]

  row_bounds :
      (budget : ℕ → ℕ) (d : Delivery)
      → IsWithinBudget budget d × (is_row d ≡ true)
      → (1 ≤ d.attempt) × (d.attempt ≤ budget endpoint_id)
  row_bounds budget d ((positive, within, room), p) =
      let here : d.endpoint_id ≡ endpoint_id = ground arith in (positive, rw (sym here) within)

length-attempts : (xs : List Delivery) → length (attempts_of xs) ≡ length xs
length-attempts [] = refl
length-attempts (x ∷ xs) = rw (length-attempts xs) refl

All-attempts :
    (P : ℕ → Type 0) (xs : List Delivery)
    → All (λ (d : Delivery). P d.attempt) xs
    → All P (attempts_of xs)
All-attempts P [] h = tt
All-attempts P (x ∷ xs) (p, h) = (p, All-attempts P xs h)

pub rows-bounded :
    (budget : ℕ → ℕ) (event_id endpoint_id : ℕ) (xs : List Delivery)
    → IsDistinct same_key (map key_of xs)
    → All (IsWithinBudget budget) xs
    → length (rows_of event_id endpoint_id xs) ≤ budget endpoint_id
rows-bounded budget event_id endpoint_id xs distinct within =
    let rows = rows_of event_id endpoint_id xs in
    let bounded =
      All-map _ (λ (d : Delivery). (1 ≤ d.attempt) × (d.attempt ≤ budget endpoint_id))
        (row_bounds event_id endpoint_id budget) rows
        (All-filter (IsWithinBudget budget) (is_row event_id endpoint_id) xs within) in
    let few =
      distinct_bounded (budget endpoint_id) (attempts_of rows)
        (attempts-IsDistinct event_id endpoint_id xs distinct)
        (All-attempts (λ a. (1 ≤ a) × (a ≤ budget endpoint_id)) rows bounded) in
    omega (arith, few, length-attempts rows)
