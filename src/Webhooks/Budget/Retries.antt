-- ===== src/Webhooks/Budget/Retries.antt =====
-- The budget of a delivery through the rows that packages/webhooks/src/dispatcher.ts creates.
use crypto_payment.Prelude.{
  ℕ, suc, ◌+◌, ◌≤◌, ◌<◌, Bool, true, false, Option, none, some, List, [], ◌∷◌, All, All-append,
  ◌==◌, ==_iff, ◌≡◌, ◌∙◌, sym, inl, inr, Bool-cases, Option-cases, arith, if◌then◌else◌,
}
use crypto_payment.Prelude.Effect.{
  Eff, Keeps, Keeps->>=, Keeps-after, gets-Yields, for_each-Keeps, pure, gets, pure-Keeps,
  gets-Keeps, if-Keeps,
}
use crypto_payment.Prelude.Int.{ℤ}
use crypto_payment.Webhooks.Outbox.{
  DeliveryStatus, pending, in_flight, delivered, failed, exhausted, abandoned, Endpoint, Delivery,
  Event, Outbox, DispatchError, create_delivery, find_endpoint, is_endpoint, update_delivery,
}
use crypto_payment.Webhooks.Dispatcher.{DispatcherOptions, has_status, same_delivery_status}
use crypto_payment.Webhooks.RetryOrder.{insert-All}
use crypto_payment.Webhooks.Poll.{
  create_unless, attempt_exists, subscribers, given_up, give_up, upsert_delivery, serves, fan_out,
  is_subscribed, enqueue_event, is_due_retry, sort_by_retry, retry_on, promote_found, promote,
  due_retries,
}
use crypto_payment.Webhooks.Rows.{
  LeavesRoom, IsPlanned, IsWithinBudget, IsSoundRow, IsSoundBox, IsSound,
}
use crypto_payment.Prelude.Every.{All-find, All-filter, All-take, All-map}
use crypto_payment.Webhooks.Budget.{update_delivery-Keeps}

module _ (budget : ℕ → ℕ) where
  abbrev Sound : Outbox → Type 0
  Sound = IsSound budget

  -- What the rows that are there keep, whatever their keys are.
  pub of_rows :
      {E A : Type 0} (m : Eff Outbox E A)
      → ((dst att : ℕ → ℕ) → Keeps (IsSoundBox budget dst att) m)
      → Keeps Sound m
  unfolding Keeps
  of_rows m keeps s (dst, att, sound) = (dst, att, keeps dst att s sound)

  -- The row of a new attempt gets the next id, whose key is free.
  at_new : ℕ → ℕ → (ℕ → ℕ) → ℕ → ℕ
  at_new new value old id = if id == new then value else old id

  at_new-old : (new value : ℕ) (old : ℕ → ℕ) (id : ℕ) → id < new → at_new new value old id ≡ old id
  unfolding at_new
  at_new-old new value old id below = ground arith

  at_new-new : (new value : ℕ) (old : ℕ → ℕ) → at_new new value old new ≡ value
  unfolding at_new
  at_new-new new value old = ground arith

  create_delivery-Keeps :
      (now : ℤ) (event_id : ℕ) (endpoint : Endpoint) (attempt : ℕ)
      → 1 ≤ attempt
      → attempt ≤ budget endpoint.id
      → Keeps Sound (create_delivery now event_id endpoint attempt)
  unfolding create_delivery Keeps
  create_delivery-Keeps now event_id endpoint attempt positive within s
        (dst, att, (endpoints, rows)) =
      let dst' = at_new s.next_id endpoint.id dst in
      let att' = at_new s.next_id attempt att in
      let older : (d : Delivery)
          → IsSoundRow budget dst att s.next_id d
          → IsSoundRow budget dst' att' (suc s.next_id) d =
        λ d (budgeted, below, key, tried). (
          budgeted,
          omega (arith, below),
          key ∙ sym (at_new-old s.next_id endpoint.id dst d.id below),
          tried ∙ sym (at_new-old s.next_id attempt att d.id below),
        ) in
      (
        dst',
        att',
        (
          endpoints,
          All-append (IsSoundRow budget dst' att' (suc s.next_id)) s.deliveries _
              (All-map (IsSoundRow budget dst att s.next_id) _ older s.deliveries rows)
              (
                (
                  (positive, within, tt),
                  omega arith,
                  sym (at_new-new s.next_id endpoint.id dst),
                  sym (at_new-new s.next_id attempt att),
                ),
                tt,
              ),
        ),
      )

  create_unless-Keeps :
      (exists : Bool) (now : ℤ) (event_id : ℕ) (endpoint : Endpoint) (attempt : ℕ)
      → 1 ≤ attempt
      → attempt ≤ budget endpoint.id
      → Keeps Sound (create_unless exists now event_id endpoint attempt)
  unfolding create_unless
  create_unless-Keeps true now event_id endpoint attempt positive within =
      pure-Keeps DispatchError Sound tt
  create_unless-Keeps false now event_id endpoint attempt positive within =
      create_delivery-Keeps now event_id endpoint attempt positive within

  upsert_delivery-Keeps :
      (now : ℤ) (event_id : ℕ) (endpoint : Endpoint) (attempt : ℕ)
      → 1 ≤ attempt
      → attempt ≤ budget endpoint.id
      → Keeps Sound (upsert_delivery now event_id endpoint attempt)
  unfolding upsert_delivery
  upsert_delivery-Keeps now event_id endpoint attempt positive within =
      Keeps->>= Sound (gets (attempt_exists event_id endpoint.id attempt))
        (λ exists. create_unless exists now event_id endpoint attempt)
        (gets-Keeps DispatchError Sound (attempt_exists event_id endpoint.id attempt))
        (λ exists. create_unless-Keeps exists now event_id endpoint attempt positive within)

  abbrev Planned : Endpoint → Type 0
  Planned = IsPlanned budget

  fan_out-Keeps :
      (now : ℤ) (event : Event) (created : ℕ) (endpoint : Endpoint)
      → Planned endpoint
      → Keeps Sound (fan_out now event created endpoint)
  unfolding fan_out
  fan_out-Keeps now event created endpoint (planned, positive) =
      if-Keeps DispatchError Sound (is_subscribed event endpoint) _ _
        (Keeps->>= Sound (upsert_delivery now event.id endpoint 1) _
          (upsert_delivery-Keeps now event.id endpoint 1 (omega arith) (rw planned at positive))
          (λ u. pure-Keeps DispatchError Sound (suc created)))
        (pure-Keeps DispatchError Sound created)

  pub enqueue_event-Keeps :
      (now : ℤ) (created : ℕ) (event : Event) → Keeps Sound (enqueue_event now created event)
  unfolding enqueue_event
  enqueue_event-Keeps now created event =
      Keeps-after Sound (All Planned) (gets (subscribers event)) _
        (gets-Yields DispatchError Sound (All Planned) (subscribers event)
          (λ s (dst, att, (endpoints, rows)).
            All-map _ Planned (λ e p. p.0) _
              (All-filter Planned (serves event) s.endpoints endpoints)))
        (λ endpoints planned.
          for_each-Keeps Sound Planned (fan_out now event) (fan_out-Keeps now event) endpoints
            planned created)

  -- A retry that is due has budget left.
  abbrev pub HasRoom : Delivery → Type 0
  HasRoom d = (1 ≤ d.attempt) × (d.attempt < budget d.endpoint_id)

  failed_room :
      (status : DeliveryStatus) (attempt limit : ℕ)
      → LeavesRoom status attempt limit
      → same_delivery_status status failed ≡ true
      → attempt < limit
  failed_room failed attempt limit room h = room
  failed_room pending attempt limit room h = cc h
  failed_room in_flight attempt limit room h = cc h
  failed_room delivered attempt limit room h = cc h
  failed_room exhausted attempt limit room h = cc h
  failed_room abandoned attempt limit room h = cc h

  due-HasRoom :
      (now : ℤ) (d : Delivery) → IsWithinBudget budget d → is_due_retry now d ≡ true → HasRoom d
  due-HasRoom now d (positive, within, room) due = elim (Bool-cases (has_status failed d)) [
    | inl h ↦ (positive, failed_room d.status d.attempt (budget d.endpoint_id) room h)
    | inr h ↦ cc (rw h at due)
  ]

  sort-All : (P : Delivery → Type 0) (ds : List Delivery) → All P ds → All P (sort_by_retry ds)
  unfolding sort_by_retry
  sort-All P [] ps = tt
  sort-All P (d ∷ ds) (p, ps) = insert-All P d (sort_by_retry ds) p (sort-All P ds ps)

  pub due_retries-HasRoom :
      (options : DispatcherOptions) (now : ℤ) (s : Outbox)
      → Sound s
      → All HasRoom (due_retries options now s)
  due_retries-HasRoom options now s (dst, att, (endpoints, rows)) =
      All-take HasRoom options.batch_size _ (
        sort-All HasRoom _ (
          All-map _ HasRoom (λ d (row, due). due-HasRoom now d row.0 due) _
            (All-filter (IsSoundRow budget dst att s.next_id) (is_due_retry now) s.deliveries
              rows)))

  give_up-Keeps :
      (now : ℤ) (promoted : ℕ) (previous : Delivery) → Keeps Sound (give_up now promoted previous)
  unfolding give_up
  give_up-Keeps now promoted previous =
      Keeps->>= Sound (update_delivery now previous.id given_up) (λ u. pure promoted)
        (of_rows (update_delivery now previous.id given_up) (λ dst att.
          update_delivery-Keeps budget dst att now previous.id given_up
            (λ n d here (budgeted, below, key, tried).
              ((budgeted.0, budgeted.1, tt), below, key, tried))))
        (λ u. pure-Keeps DispatchError Sound promoted)

  FoundFor : ℕ → Option Endpoint → Type 0
  FoundFor id none = Unit
  FoundFor id (some e) = Planned e × (e.id ≡ id)

  found-FoundFor : (id : ℕ) (s : Outbox) → Sound s → FoundFor id (find_endpoint id s)
  unfolding FoundFor
  found-FoundFor id s (dst, att, (endpoints, rows)) = elim (Option-cases (find_endpoint id s)) [
    | inl h ↦ rw h tt
    | inr (e, h) ↦
        let (planned, here) = All-find Planned (is_endpoint id) s.endpoints h endpoints in
        rw h (planned, (==_iff e.id id).0 here)
  ]

  retry_on-Keeps :
      (now : ℤ) (promoted : ℕ) (previous : Delivery) (enabled : Bool) (endpoint : Endpoint)
      → HasRoom previous
      → endpoint.id ≡ previous.endpoint_id
      → Keeps Sound (retry_on now promoted previous enabled endpoint)
  unfolding retry_on
  retry_on-Keeps now promoted previous true endpoint (positive, room) same =
      Keeps->>= Sound (upsert_delivery now previous.event_id endpoint (previous.attempt + 1)) _
        (upsert_delivery-Keeps now previous.event_id endpoint (previous.attempt + 1) (omega arith)
          (rw same (omega (arith, room))))
        (λ u. pure-Keeps DispatchError Sound (suc promoted))
  retry_on-Keeps now promoted previous false endpoint room same =
      give_up-Keeps now promoted previous

  promote_found-Keeps :
      (now : ℤ) (promoted : ℕ) (previous : Delivery) (found : Option Endpoint)
      → HasRoom previous
      → FoundFor previous.endpoint_id found
      → Keeps Sound (promote_found now promoted previous found)
  unfolding promote_found FoundFor
  promote_found-Keeps now promoted previous none room found = give_up-Keeps now promoted previous
  promote_found-Keeps now promoted previous (some e) room (planned, same) =
      retry_on-Keeps now promoted previous e.enabled e room same

  pub promote-Keeps :
      (now : ℤ) (promoted : ℕ) (previous : Delivery)
      → HasRoom previous
      → Keeps Sound (promote now promoted previous)
  unfolding promote
  promote-Keeps now promoted previous room =
      Keeps-after Sound (FoundFor previous.endpoint_id) (gets (find_endpoint previous.endpoint_id))
        (promote_found now promoted previous)
        (gets-Yields DispatchError Sound (FoundFor previous.endpoint_id)
          (find_endpoint previous.endpoint_id) (found-FoundFor previous.endpoint_id))
        (λ found. promote_found-Keeps now promoted previous found room)
