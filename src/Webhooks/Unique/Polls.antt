-- ===== src/Webhooks/Unique/Polls.antt =====
-- The unique key of a row, through the attempts and the phases of a poll of
-- packages/webhooks/src/dispatcher.ts.
use crypto_payment.Prelude.{ℕ, Bool, true, false, Option, none, some, List, [], ◌∷◌, All}
use crypto_payment.Prelude.Effect.{Eff, Keeps, for_each, for_each-Keeps, modify}
use crypto_payment.Prelude.Int.{ℤ}
use crypto_payment.Webhooks.Outbox.{Endpoint, Delivery, Event, Outbox, DispatchError}
use crypto_payment.Webhooks.Dispatcher.{
  DispatcherOptions, World, Answer, blocked, undecryptable, no_response, responded,
  finalize_success, send, abandon, claim_and_send, attempt_pending, attempt_found, attempt_delivery,
}
use crypto_payment.Webhooks.Poll.{
  fan_out, enqueue_event, give_up, retry_on, promote_found, promote, recover_one, attempt_due,
  enqueue_new_deliveries, promote_due_retries, recover_stale_in_flight, send_due, run_once,
  start_run, WebhookDispatchSummary,
}
use crypto_payment.Webhooks.Unique.{HasKeys, keys_rules, finalize_failure-Keeps}

each-Keeps :
    {A B : Type 0} (body : B → A → Eff Outbox DispatchError B)
    → ((b : B) (x : A) → Keeps HasKeys (body b x))
    → (b : B) (xs : List A) → Keeps HasKeys (for_each body b xs)
each-Keeps body keeps b xs =
    for_each-Keeps HasKeys (λ x. Unit {0}) body (λ c x u. keeps c x) xs (all_of xs) b
  where
    all_of : {A : Type 0} (xs : List A) → All (λ x. Unit {0}) xs
    all_of [] = tt
    all_of (x ∷ xs) = (tt, all_of xs)

module _ (options : DispatcherOptions) (world : World) where
  finalize_success-Keeps :
      (id endpoint_id http_status : ℕ)
      → Keeps HasKeys (finalize_success options world.now id endpoint_id http_status)
  unfolding finalize_success
  finalize_success-Keeps id endpoint_id http_status = search keys_rules

  send-Keeps : (d : Delivery) (answer : Answer) → Keeps HasKeys (send options world d answer)
  unfolding send
  send-Keeps d blocked = search (keys_rules, finalize_failure-Keeps)
  send-Keeps d undecryptable = search keys_rules
  send-Keeps d no_response = search (keys_rules, finalize_failure-Keeps)
  send-Keeps d (responded status) =
      search (keys_rules, finalize_failure-Keeps, finalize_success-Keeps)

  attempt_pending-Keeps :
      (d : Delivery) (enabled exists : Bool)
      → Keeps HasKeys (attempt_pending options world d enabled exists)
  unfolding attempt_pending abandon claim_and_send
  attempt_pending-Keeps d true true = search (keys_rules, send-Keeps)
  attempt_pending-Keeps d true false = search keys_rules
  attempt_pending-Keeps d false true = search keys_rules
  attempt_pending-Keeps d false false = search keys_rules

  attempt_found-Keeps :
      (found : Option Delivery) → Keeps HasKeys (attempt_found options world found)
  unfolding attempt_found
  attempt_found-Keeps none = search keys_rules
  attempt_found-Keeps (some d) = search (keys_rules, attempt_pending-Keeps)

  attempt_due-Keeps :
      (summary : WebhookDispatchSummary) (d : Delivery)
      → Keeps HasKeys (attempt_due options world summary d)
  unfolding attempt_due attempt_delivery
  attempt_due-Keeps summary d = search (keys_rules, attempt_found-Keeps)

  recover_one-Keeps : (n : ℕ) (d : Delivery) → Keeps HasKeys (recover_one options world n d)
  unfolding recover_one
  recover_one-Keeps n d = search (keys_rules, finalize_failure-Keeps)

fan_out-Keeps :
    (now : ℤ) (event : Event) (created : ℕ) (endpoint : Endpoint)
    → Keeps HasKeys (fan_out now event created endpoint)
unfolding fan_out
fan_out-Keeps now event created endpoint = search keys_rules

enqueue_event-Keeps :
    (now : ℤ) (created : ℕ) (event : Event) → Keeps HasKeys (enqueue_event now created event)
unfolding enqueue_event
enqueue_event-Keeps now created event = search (keys_rules, each-Keeps, fan_out-Keeps)

retry_on-Keeps :
    (now : ℤ) (promoted : ℕ) (previous : Delivery) (enabled : Bool) (endpoint : Endpoint)
    → Keeps HasKeys (retry_on now promoted previous enabled endpoint)
unfolding retry_on give_up
retry_on-Keeps now promoted previous true endpoint = search keys_rules
retry_on-Keeps now promoted previous false endpoint = search keys_rules

promote_found-Keeps :
    (now : ℤ) (promoted : ℕ) (previous : Delivery) (found : Option Endpoint)
    → Keeps HasKeys (promote_found now promoted previous found)
unfolding promote_found give_up
promote_found-Keeps now promoted previous none = search keys_rules
promote_found-Keeps now promoted previous (some e) = search (keys_rules, retry_on-Keeps)

promote-Keeps :
    (now : ℤ) (promoted : ℕ) (previous : Delivery) → Keeps HasKeys (promote now promoted previous)
unfolding promote
promote-Keeps now promoted previous = search (keys_rules, promote_found-Keeps)

module _ (options : DispatcherOptions) (world : World) where
  recover-Keeps : Keeps HasKeys (recover_stale_in_flight options world)
  unfolding recover_stale_in_flight
  recover-Keeps = search (keys_rules, each-Keeps, recover_one-Keeps)

  enqueue-Keeps : (now : ℤ) → Keeps HasKeys (enqueue_new_deliveries options now)
  unfolding enqueue_new_deliveries
  enqueue-Keeps now = search (keys_rules, each-Keeps, enqueue_event-Keeps)

  promote_due-Keeps : (now : ℤ) → Keeps HasKeys (promote_due_retries options now)
  unfolding promote_due_retries
  promote_due-Keeps now = search (keys_rules, each-Keeps, promote-Keeps)

  send_due-Keeps :
      (summary : WebhookDispatchSummary) → Keeps HasKeys (send_due options world summary)
  unfolding send_due
  send_due-Keeps summary = search (keys_rules, each-Keeps, attempt_due-Keeps)

  start-Keeps : Keeps HasKeys (modify {E = DispatchError} start_run)
  unfolding Keeps
  start-Keeps s keys = keys

  pub run_once-Keeps : Keeps HasKeys (run_once options world)
  unfolding run_once
  run_once-Keeps =
      search
        (keys_rules, start-Keeps, recover-Keeps, enqueue-Keeps, promote_due-Keeps, send_due-Keeps)
        depth 12
