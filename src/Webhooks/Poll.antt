-- ===== src/Webhooks/Poll.antt =====
-- packages/webhooks/src/dispatcher.ts: the phases of `runOnce`, the poll of the queue.
use crypto_payment.Prelude.{
  take, ℕ, suc, ◌+◌, String, Bool, true, false, not, ◌&&◌, ◌||◌, Option, none, some, List, [], ◌∷◌,
  any, filter, ◌==◌, str_eq, if◌then◌else◌,
}
use crypto_payment.Prelude.Int.{ℤ, ◌-ℤ◌, leb_ℤ, ltb_ℤ}
use crypto_payment.Prelude.Effect.{pure, gets, modify, for_each, ◌>>=◌, ◌>>◌}
use crypto_payment.Webhooks.Outbox.{
  pending, in_flight, failed, abandoned, Event, Endpoint, Delivery, Outbox, DispatchIo,
  find_endpoint, update_delivery, create_delivery,
}
use crypto_payment.Webhooks.Dispatcher.{
  DispatcherOptions, World, DeliveryOutcome, was_delivered, was_failed, was_exhausted,
  was_abandoned, skipped, has_status, finalize_failure, attempt_delivery,
}

-- The unique key of an attempt.
abbrev pub has_attempt : ℕ → ℕ → ℕ → Delivery → Bool
has_attempt event_id endpoint_id attempt d =
    d.event_id == event_id && d.endpoint_id == endpoint_id && d.attempt == attempt

abbrev pub attempt_exists : ℕ → ℕ → ℕ → Outbox → Bool
attempt_exists event_id endpoint_id attempt s =
    any (has_attempt event_id endpoint_id attempt) s.deliveries

-- `webhookDelivery.upsert` on that key; its `update` writes nothing.
unfoldable pub create_unless : Bool → ℤ → ℕ → Endpoint → ℕ → DispatchIo (Unit {0})
create_unless true now event_id endpoint attempt = pure tt
create_unless false now event_id endpoint attempt = create_delivery now event_id endpoint attempt

unfoldable pub upsert_delivery : ℤ → ℕ → Endpoint → ℕ → DispatchIo (Unit {0})
upsert_delivery now event_id endpoint attempt = do
  exists ← gets (attempt_exists event_id endpoint.id attempt)
  create_unless exists now event_id endpoint attempt

-- An endpoint with no types listed subscribes to all.
abbrev pub all_types : List String → Bool
all_types [] = true
all_types (x ∷ xs) = false

abbrev pub is_subscribed : Event → Endpoint → Bool
is_subscribed event endpoint =
    all_types endpoint.event_types || any (str_eq event.type) endpoint.event_types

abbrev pub serves : Event → Endpoint → Bool
serves event endpoint = endpoint.merchant_id == event.merchant_id && endpoint.enabled

abbrev pub subscribers : Event → Outbox → List Endpoint
subscribers event s = filter (serves event) s.endpoints

unfoldable pub fan_out : ℤ → Event → ℕ → Endpoint → DispatchIo ℕ
fan_out now event created endpoint =
    if is_subscribed event endpoint
    then (do upsert_delivery now event.id endpoint 1; pure (suc created))
    else pure created

unfoldable pub enqueue_event : ℤ → ℕ → Event → DispatchIo ℕ
enqueue_event now created event = do
  endpoints ← gets (subscribers event)
  for_each (fan_out now event) created endpoints

-- No delivery so far, and an enabled endpoint of the merchant.
abbrev pub is_unfanned : Outbox → Event → Bool
is_unfanned s event =
    not (any (λ (d : Delivery). d.event_id == event.id) s.deliveries)
    && any (serves event) s.endpoints

-- A retry that is due.
abbrev pub is_before : ℤ → Option ℤ → Bool
is_before now none = false
is_before now (some at) = leb_ℤ at now

abbrev pub is_due_retry : ℤ → Delivery → Bool
is_due_retry now d = has_status failed d && is_before now d.next_retry_at

-- `orderBy: { nextRetryAt: 'asc' }`
abbrev pub is_later : Option ℤ → Option ℤ → Bool
is_later (some a) (some b) = ltb_ℤ b a
is_later _ _ = false

unfoldable pub insert_by_retry : Delivery → List Delivery → List Delivery
insert_by_retry d [] = d ∷ []
insert_by_retry d (e ∷ es) =
    let rest = insert_by_retry d es in
    if is_later d.next_retry_at e.next_retry_at then e ∷ rest else d ∷ e ∷ es

unfoldable pub sort_by_retry : List Delivery → List Delivery
sort_by_retry [] = []
sort_by_retry (d ∷ ds) = insert_by_retry d (sort_by_retry ds)

abbrev pub given_up : Delivery → Delivery
given_up d = record d { status = abandoned; next_retry_at = none }

unfoldable pub give_up : ℤ → ℕ → Delivery → DispatchIo ℕ
give_up now promoted previous = do update_delivery now previous.id given_up; pure promoted

unfoldable pub retry_on : ℤ → ℕ → Delivery → Bool → Endpoint → DispatchIo ℕ
retry_on now promoted previous true endpoint = do
  upsert_delivery now previous.event_id endpoint (previous.attempt + 1)
  pure (suc promoted)
retry_on now promoted previous false endpoint = give_up now promoted previous

unfoldable pub promote_found : ℤ → ℕ → Delivery → Option Endpoint → DispatchIo ℕ
promote_found now promoted previous none = give_up now promoted previous
promote_found now promoted previous (some endpoint) =
    retry_on now promoted previous endpoint.enabled endpoint

unfoldable pub promote : ℤ → ℕ → Delivery → DispatchIo ℕ
promote now promoted previous = do
  endpoint ← gets (find_endpoint previous.endpoint_id)
  promote_found now promoted previous endpoint

pub record WebhookDispatchSummary : Type 0 where
  pub enqueued : ℕ
  pub retries_promoted : ℕ
  pub recovered_stale : ℕ
  pub delivered : ℕ
  pub failed : ℕ
  pub exhausted : ℕ
  pub abandoned : ℕ

abbrev pub count_outcome : WebhookDispatchSummary → DeliveryOutcome → WebhookDispatchSummary
count_outcome t was_delivered = record t { delivered = suc t.delivered }
count_outcome t was_failed = record t { failed = suc t.failed }
count_outcome t was_exhausted = record t { exhausted = suc t.exhausted }
count_outcome t was_abandoned = record t { abandoned = suc t.abandoned }
count_outcome t skipped = t

abbrev pub start_run : Outbox → Outbox
start_run s = record s { bulk_abandoned = 0 }

abbrev pub new_summary : ℕ → ℕ → ℕ → WebhookDispatchSummary
new_summary recovered_stale enqueued retries_promoted = record {
  enqueued = enqueued;
  retries_promoted = retries_promoted;
  recovered_stale = recovered_stale;
  delivered = 0;
  failed = 0;
  exhausted = 0;
  abandoned = 0;
}

abbrev pub with_swept : WebhookDispatchSummary → Outbox → WebhookDispatchSummary
with_swept summary s = record summary { abandoned = summary.abandoned + s.bulk_abandoned }

module _ (options : DispatcherOptions) where
  abbrev pub unfanned_events : Outbox → List Event
  unfanned_events s = take options.batch_size (filter (is_unfanned s) s.events)

  unfoldable pub enqueue_new_deliveries : ℤ → DispatchIo ℕ
  enqueue_new_deliveries now = do
    unfanned ← gets unfanned_events
    for_each (enqueue_event now) 0 unfanned

  abbrev pub due_retries : ℤ → Outbox → List Delivery
  due_retries now s =
      take options.batch_size (sort_by_retry (filter (is_due_retry now) s.deliveries))

  unfoldable pub promote_due_retries : ℤ → DispatchIo ℕ
  promote_due_retries now = do due ← gets (due_retries now); for_each (promote now) 0 due

  abbrev pub is_stale : ℤ → Delivery → Bool
  is_stale now d = has_status in_flight d && ltb_ℤ d.updated_at (now -ℤ options.stale_in_flight_ms)

  abbrev pub stale_deliveries : ℤ → Outbox → List Delivery
  stale_deliveries now s = take options.batch_size (filter (is_stale now) s.deliveries)

  unfoldable pub recover_one : World → ℕ → Delivery → DispatchIo ℕ
  recover_one world recovered d = do
    outcome ← finalize_failure options world.now (world.random d) d.id d.attempt d.endpoint_id none
    pure (suc recovered)

  unfoldable pub recover_stale_in_flight : World → DispatchIo ℕ
  recover_stale_in_flight world = do
    stale ← gets (stale_deliveries world.now)
    for_each (recover_one world) 0 stale

  abbrev pub is_due : ℤ → Delivery → Bool
  is_due now d = has_status pending d && leb_ℤ d.scheduled_at now

  abbrev pub due_deliveries : ℤ → Outbox → List Delivery
  due_deliveries now s = take options.batch_size (filter (is_due now) s.deliveries)

  unfoldable pub attempt_due :
      World → WebhookDispatchSummary → Delivery → DispatchIo WebhookDispatchSummary
  attempt_due world summary d = do
    outcome ← attempt_delivery options world d.id
    pure (count_outcome summary outcome)

  unfoldable pub send_due : World → WebhookDispatchSummary → DispatchIo WebhookDispatchSummary
  send_due world summary = do
    due ← gets (due_deliveries world.now)
    for_each (attempt_due world) summary due

  unfoldable pub run_once : World → DispatchIo WebhookDispatchSummary
  run_once world = do
    modify start_run
    recovered_stale ← recover_stale_in_flight world
    enqueued ← enqueue_new_deliveries world.now
    retries_promoted ← promote_due_retries world.now
    summary ← send_due world (new_summary recovered_stale enqueued retries_promoted)
    gets (with_swept summary)
