-- ===== src/Webhooks/Budget/Attempts.antt =====
-- The budget of a delivery through one attempt of packages/webhooks/src/dispatcher.ts to send it.
use crypto_payment.Prelude.{
  ℕ, Bool, true, false, Option, none, some, err, ◌≡◌, inl, inr, Option-cases,
}
use crypto_payment.Prelude.Effect.{
  Keeps, Keeps->>=, Keeps-after, gets-Yields, on_error-Keeps, gets, pure-Keeps, lift-Keeps,
  gets-Keeps, if-Keeps,
}
use crypto_payment.Prelude.Int.{ℤ}
use crypto_payment.Webhooks.Outbox.{
  pending, in_flight, abandoned, Delivery, Outbox, DispatchError, update_delivery, is_delivery,
  find_delivery, cannot_decrypt,
}
use crypto_payment.Webhooks.Dispatcher.{
  DispatcherOptions, World, Answer, blocked, undecryptable, no_response, responded, send, abandon,
  claim_and_send, attempt_pending, attempt_found, attempt_delivery, has_status, set_status,
  event_exists, endpoint_enabled, was_abandoned, skipped,
}
use crypto_payment.Webhooks.Retry.{is_success_status}
use crypto_payment.Webhooks.Rows.{IsSoundRow, IsSoundBox}
use crypto_payment.Prelude.Every.{All-find}
use crypto_payment.Webhooks.Budget.{update_delivery-Keeps, fail_row-Keeps, finalize_success-Keeps}

module _ (budget endpoint_of attempt_of : ℕ → ℕ) (options : DispatcherOptions) where
  abbrev Sound : Outbox → Type 0
  Sound = IsSoundBox budget endpoint_of attempt_of

  abbrev Row : ℕ → Delivery → Type 0
  Row = IsSoundRow budget endpoint_of attempt_of

  -- A row that has the key of its id.
  abbrev HasKey : Delivery → Type 0
  HasKey d = (d.endpoint_id ≡ endpoint_of d.id) × (d.attempt ≡ attempt_of d.id)

  send-Keeps :
      (world : World) (d : Delivery) (answer : Answer)
      → HasKey d
      → Keeps Sound (send options world d answer)
  unfolding send
  send-Keeps world d blocked key =
      fail_row-Keeps budget endpoint_of attempt_of options world.now (world.random d) d none key
  send-Keeps world d undecryptable key = lift-Keeps DispatchError Sound (λ s. err cannot_decrypt)
  send-Keeps world d no_response key =
      fail_row-Keeps budget endpoint_of attempt_of options world.now (world.random d) d none key
  send-Keeps world d (responded status) key =
      if-Keeps DispatchError Sound (is_success_status status) _ _
        (on_error-Keeps Sound _ _
          (finalize_success-Keeps budget endpoint_of attempt_of options world.now d.id d.endpoint_id
            status)
          (fail_row-Keeps budget endpoint_of attempt_of options world.now (world.random d) d none
            key))
        (fail_row-Keeps budget endpoint_of attempt_of options world.now (world.random d) d
          (some status) key)

  -- A status other than FAILED asks for no budget.
  set_status-Keeps :
      (now : ℤ) (id : ℕ) (change : Delivery → Delivery)
      → ((n : ℕ) (d : Delivery) → Row n d → Row n (record (change d) { updated_at = now }))
      → Keeps Sound (update_delivery now id change)
  set_status-Keeps now id change keeps =
      update_delivery-Keeps budget endpoint_of attempt_of now id change
        (λ n d here row. keeps n d row)

  abandon-Keeps : (now : ℤ) (id : ℕ) → Keeps Sound (abandon now id)
  unfolding abandon
  abandon-Keeps now id =
      Keeps->>= Sound (update_delivery now id (set_status abandoned)) _
        (set_status-Keeps now id (set_status abandoned)
          (λ n x (budgeted, below, dst, att). ((budgeted.0, budgeted.1, tt), below, dst, att)))
        (λ u. pure-Keeps DispatchError Sound was_abandoned)

  attempt_pending-Keeps :
      (world : World) (d : Delivery) (enabled exists : Bool)
      → HasKey d
      → Keeps Sound (attempt_pending options world d enabled exists)
  unfolding attempt_pending claim_and_send
  attempt_pending-Keeps world d true true key =
      Keeps->>= Sound (update_delivery world.now d.id (set_status in_flight)) _
        (set_status-Keeps world.now d.id (set_status in_flight)
          (λ n x (budgeted, below, dst, att). ((budgeted.0, budgeted.1, tt), below, dst, att)))
        (λ u. send-Keeps world d (world.answer d) key)
  attempt_pending-Keeps world d true false key = abandon-Keeps world.now d.id
  attempt_pending-Keeps world d false exists key = abandon-Keeps world.now d.id

  HasKeyOf : Option Delivery → Type 0
  HasKeyOf none = Unit
  HasKeyOf (some d) = HasKey d

  attempt_found-Keeps :
      (world : World) (found : Option Delivery)
      → HasKeyOf found
      → Keeps Sound (attempt_found options world found)
  unfolding attempt_found HasKeyOf
  attempt_found-Keeps world none key = pure-Keeps DispatchError Sound skipped
  attempt_found-Keeps world (some d) key =
      if-Keeps DispatchError Sound (has_status pending d) _ _
        (Keeps->>= Sound _ _ (gets-Keeps DispatchError Sound (endpoint_enabled d)) (λ enabled.
          Keeps->>= Sound _ _ (gets-Keeps DispatchError Sound (event_exists d))
            (λ exists. attempt_pending-Keeps world d enabled exists key)))
        (pure-Keeps DispatchError Sound skipped)

  found-HasKey : (id : ℕ) (s : Outbox) → Sound s → HasKeyOf (find_delivery id s)
  unfolding HasKeyOf
  found-HasKey id s (endpoints, rows) = elim (Option-cases (find_delivery id s)) [
    | inl h ↦ rw h tt
    | inr (d, h) ↦
        let ((budgeted, below, dst, att), here) =
          All-find (Row s.next_id) (is_delivery id) s.deliveries h rows in
        rw h (dst, att)
  ]

  pub attempt_delivery-Keeps :
      (world : World) (id : ℕ) → Keeps Sound (attempt_delivery options world id)
  unfolding attempt_delivery
  attempt_delivery-Keeps world id =
      Keeps-after Sound HasKeyOf (gets (find_delivery id)) (attempt_found options world)
        (gets-Yields DispatchError Sound HasKeyOf (find_delivery id) (found-HasKey id))
        (attempt_found-Keeps world)
