-- ===== src/Webhooks/Dispatcher.antt =====
-- packages/webhooks/src/dispatcher.ts: `WebhookDispatcher`, one worker. `now` is one time for a call of
-- an operation. What lies outside is a parameter: whether the address guard lets the URL pass, whether
-- the secret decrypts, the answer of the endpoint, and the draw of `Math.random`.
use crypto_payment.Prelude.{
  ℕ, ◌+◌, Bool, true, false, not, ◌&&◌, Option, none, some, Result, ok, err, any, filter, length,
  update_where, leb, ◌==◌, if◌then◌else◌,
}
use crypto_payment.Prelude.Int.{ℤ, pos, ◌+ℤ◌}
use crypto_payment.Prelude.Effect.{pure, gets, lift, modify, on_error, ◌>>=◌, ◌>>◌}
use crypto_payment.Webhooks.Retry.{
  Fraction, default_options, compute_retry_delay_ms, is_success_status,
}
use crypto_payment.Webhooks.Outbox.{
  DeliveryStatus, pending, in_flight, delivered, failed, exhausted, abandoned, Event, Endpoint,
  Delivery, Outbox, DispatchError, cannot_decrypt, retry, DispatchIo, find_endpoint, find_delivery,
  update_delivery, update_endpoint,
}

pub record DispatcherOptions : Type 0 where
  pub disable_after_consecutive_failures : ℕ
  pub stale_in_flight_ms : ℤ
  pub batch_size : ℕ

-- The defaults of the constructor.
abbrev pub default_dispatcher_options : DispatcherOptions
default_dispatcher_options = record {
  disable_after_consecutive_failures = 50;
  stale_in_flight_ms = pos 300000;
  batch_size = 100;
}

-- How an attempt to send ends outside: the address guard refuses the URL, the secret does not decrypt,
-- the endpoint responds with a status, or `fetch` throws (a timeout among others).
pub data Answer : Type 0 where
  blocked undecryptable no_response : Answer
  responded : ℕ → Answer

pub record World : Type 0 where
  pub now : ℤ
  pub answer : Delivery → Answer
  pub random : Delivery → Fraction

pub data DeliveryOutcome : Type 0 where
  was_delivered was_failed was_exhausted was_abandoned skipped : DeliveryOutcome

abbrev pub same_delivery_status : DeliveryStatus → DeliveryStatus → Bool
same_delivery_status pending pending = true
same_delivery_status in_flight in_flight = true
same_delivery_status delivered delivered = true
same_delivery_status failed failed = true
same_delivery_status exhausted exhausted = true
same_delivery_status abandoned abandoned = true
same_delivery_status _ _ = false

abbrev pub has_status : DeliveryStatus → Delivery → Bool
has_status status delivery = same_delivery_status delivery.status status

abbrev pub set_status : DeliveryStatus → Delivery → Delivery
set_status status delivery = record delivery { status = status }

-- The status of a failed attempt, by whether its budget is used up and whether the endpoint is
-- disabled with it.
abbrev pub failure_status : Bool → Bool → DeliveryStatus
failure_status true should_disable = exhausted
failure_status false true = abandoned
failure_status false false = failed

abbrev pub failure_outcome : Bool → Bool → DeliveryOutcome
failure_outcome true should_disable = was_exhausted
failure_outcome false true = was_abandoned
failure_outcome false false = was_failed

abbrev pub is_queued : ℕ → Delivery → Bool
is_queued endpoint_id d = d.endpoint_id == endpoint_id && has_status pending d

abbrev pub swept_row : ℤ → Delivery → Delivery
swept_row now d = record d { status = abandoned; updated_at = now }

abbrev pub disabled_endpoint : ℤ → Endpoint → Endpoint
disabled_endpoint now e = record e { enabled = false; disabled_at = some now }

unfoldable pub sweep_queued : ℤ → ℕ → DispatchIo (Unit {0})
sweep_queued now endpoint_id = modify (λ s. record s {
  deliveries = update_where (is_queued endpoint_id) (swept_row now) s.deliveries;
  bulk_abandoned = s.bulk_abandoned + length (filter (is_queued endpoint_id) s.deliveries);
})

-- An endpoint that is disabled, with its queued rows swept.
unfoldable pub disable_endpoint : ℤ → ℕ → DispatchIo (Unit {0})
disable_endpoint now endpoint_id = do
  updated ← update_endpoint endpoint_id (disabled_endpoint now)
  sweep_queued now endpoint_id

unfoldable pub disable_when : Bool → ℤ → ℕ → DispatchIo (Unit {0})
disable_when true now endpoint_id = disable_endpoint now endpoint_id
disable_when false now endpoint_id = pure tt

-- The time of the next attempt, for a row that will be tried again.
unfoldable pub next_retry : Bool → ℤ → Fraction → ℕ → Result DispatchError (Option ℤ)
next_retry false now random attempt = ok none
next_retry true now random attempt = elim (compute_retry_delay_ms default_options random attempt) [
  | ok delay ↦ ok (some (now +ℤ pos delay))
  | err e ↦ err (retry e)
]

-- What is written to the row of an attempt that failed.
abbrev pub failed_row : ℤ → Option ℕ → Bool → Bool → Option ℤ → Delivery → Delivery
failed_row now http_status attempts_exhausted should_disable next_retry_at d = record d {
  status = failure_status attempts_exhausted should_disable;
  http_status = http_status;
  sent_at = some now;
  next_retry_at = next_retry_at;
}

abbrev pub delivered_row : ℤ → ℕ → Delivery → Delivery
delivered_row now http_status d = record d {
  status = delivered;
  http_status = some http_status;
  sent_at = some now;
  next_retry_at = none;
}

abbrev pub one_more_failure : Endpoint → Endpoint
one_more_failure e = record e { consecutive_failures = e.consecutive_failures + 1 }

abbrev pub no_failures : Endpoint → Endpoint
no_failures e = record e { consecutive_failures = 0 }

unfoldable pub write_failure :
    ℤ → ℕ → Option ℕ → Bool → Bool → Option ℤ → DispatchIo DeliveryOutcome
write_failure now delivery_id http_status attempts_exhausted should_disable next_retry_at = do
  update_delivery now delivery_id
      (failed_row now http_status attempts_exhausted should_disable next_retry_at)
  pure (failure_outcome attempts_exhausted should_disable)

unfoldable pub fail_attempt :
    ℤ → Fraction → ℕ → ℕ → ℕ → Option ℕ → Bool → Bool → DispatchIo DeliveryOutcome
fail_attempt now random delivery_id attempt endpoint_id http_status attempts_exhausted
      should_disable =
    do
      disable_when should_disable now endpoint_id
      next_retry_at ←
          lift (λ s. next_retry (not attempts_exhausted && not should_disable) now random attempt)
      write_failure now delivery_id http_status attempts_exhausted should_disable next_retry_at

abbrev pub is_enabled : Option Endpoint → Bool
is_enabled none = false
is_enabled (some endpoint) = endpoint.enabled

abbrev pub endpoint_enabled : Delivery → Outbox → Bool
endpoint_enabled delivery s = is_enabled (find_endpoint delivery.endpoint_id s)

abbrev pub event_exists : Delivery → Outbox → Bool
event_exists delivery s = any (λ (e : Event). e.id == delivery.event_id) s.events

unfoldable pub abandon : ℤ → ℕ → DispatchIo DeliveryOutcome
abandon now delivery_id = do
  update_delivery now delivery_id (set_status abandoned)
  pure was_abandoned

module _ (options : DispatcherOptions) where
  -- The endpoint as written, with this failure counted.
  abbrev pub exceeds_threshold : Endpoint → Bool
  exceeds_threshold endpoint =
      leb options.disable_after_consecutive_failures endpoint.consecutive_failures

  unfoldable pub judge_failure :
      ℤ → Fraction → ℕ → ℕ → ℕ → Option ℕ → Endpoint → DispatchIo DeliveryOutcome
  judge_failure now random delivery_id attempt endpoint_id http_status endpoint =
      let attempts_exhausted = leb endpoint.max_attempts attempt in
      fail_attempt now random delivery_id attempt endpoint_id http_status attempts_exhausted
        (not attempts_exhausted && exceeds_threshold endpoint)

  unfoldable pub finalize_failure : ℤ → Fraction → ℕ → ℕ → ℕ → Option ℕ → DispatchIo DeliveryOutcome
  finalize_failure now random delivery_id attempt endpoint_id http_status = do
    endpoint ← update_endpoint endpoint_id one_more_failure
    judge_failure now random delivery_id attempt endpoint_id http_status endpoint

  unfoldable pub finalize_success : ℤ → ℕ → ℕ → ℕ → DispatchIo DeliveryOutcome
  finalize_success now delivery_id endpoint_id http_status = do
    update_delivery now delivery_id (delivered_row now http_status)
    endpoint ← update_endpoint endpoint_id no_failures
    pure was_delivered

  -- What follows a claim: the guard, the signature and the request.
  unfoldable pub send : World → Delivery → Answer → DispatchIo DeliveryOutcome
  send world delivery blocked =
      finalize_failure world.now (world.random delivery) delivery.id delivery.attempt
        delivery.endpoint_id none
  send world delivery undecryptable = lift (λ s. err cannot_decrypt)
  send world delivery no_response =
      finalize_failure world.now (world.random delivery) delivery.id delivery.attempt
        delivery.endpoint_id none
  send world delivery (responded status) =
      if is_success_status status
      then on_error (finalize_success world.now delivery.id delivery.endpoint_id status) (
          finalize_failure world.now (world.random delivery) delivery.id delivery.attempt
            delivery.endpoint_id none)
      else finalize_failure world.now (world.random delivery) delivery.id delivery.attempt
          delivery.endpoint_id (some status)

  unfoldable pub claim_and_send : World → Delivery → DispatchIo DeliveryOutcome
  claim_and_send world delivery = do
    update_delivery world.now delivery.id (set_status in_flight)
    send world delivery (world.answer delivery)

  -- The checks before a claim: an enabled endpoint and an event.
  unfoldable pub attempt_pending : World → Delivery → Bool → Bool → DispatchIo DeliveryOutcome
  attempt_pending world delivery true true = claim_and_send world delivery
  attempt_pending world delivery _ _ = abandon world.now delivery.id

  unfoldable pub attempt_found : World → Option Delivery → DispatchIo DeliveryOutcome
  attempt_found world none = pure skipped
  attempt_found world (some delivery) =
      if has_status pending delivery
      then (do
        enabled ← gets (endpoint_enabled delivery)
        exists ← gets (event_exists delivery)
        attempt_pending world delivery enabled exists)
      else pure skipped

  unfoldable pub attempt_delivery : World → ℕ → DispatchIo DeliveryOutcome
  attempt_delivery world delivery_id = do
    found ← gets (find_delivery delivery_id)
    attempt_found world found
