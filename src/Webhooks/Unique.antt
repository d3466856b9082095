-- ===== src/Webhooks/Unique.antt =====
-- The unique key of a row, through the writes of packages/webhooks/src/dispatcher.ts.
pub mod Polls
use crypto_payment.Prelude.{
  ℕ, suc, ◌+◌, Bool, true, false, not, ◌&&◌, Option, none, some, List, [], ◌∷◌, ◌++◌, any, map, All,
  Result, ok, err, ◌==◌, ==_iff, ◌≡◌, ◌∙◌, refl, sym, ap, inl, inr, Bool-cases, Option-cases,
  if◌then◌else◌, arith, update_where, Result-cases, leb, subst,
}
use crypto_payment.Prelude.Effect.{
  Eff, Keeps, Keeps->>=, on_error-Keeps, for_each, for_each-Keeps, lift, pure, modify, gets,
  pure-Keeps, lift-Keeps, gets-Keeps, if-Keeps, on_error, ◌>>=◌, ◌>>◌,
}
use crypto_payment.Prelude.Int.{ℤ}
use crypto_payment.Webhooks.Retry.{Fraction, is_success_status}
use crypto_payment.Webhooks.Outbox.{
  abandoned, Endpoint, Delivery, Event, Outbox, DispatchError, update_first, update_delivery,
  update_endpoint, create_delivery, is_delivery, find_endpoint, find_delivery, in_flight, pending,
}
use crypto_payment.Webhooks.Dispatcher.{
  DispatcherOptions, World, Answer, blocked, undecryptable, no_response, responded,
  disable_endpoint, disable_when, is_queued, finalize_failure, finalize_success, sweep_queued,
  swept_row, failed_row, delivered_row, write_failure, fail_attempt, judge_failure, send, abandon,
  claim_and_send, attempt_pending, attempt_found, attempt_delivery, set_status, next_retry,
  DeliveryOutcome,
}
use crypto_payment.Webhooks.Poll.{
  attempt_exists, create_unless, upsert_delivery, fan_out, enqueue_event, give_up, given_up,
  retry_on, promote_found, promote, recover_one, attempt_due, enqueue_new_deliveries,
  promote_due_retries, recover_stale_in_flight, send_due, run_once, start_run,
  WebhookDispatchSummary,
}
use crypto_payment.Webhooks.Keys.{Key, key_of, same_key, IsDistinct, IsDistinct-snoc}

abbrev pub HasKeys : Outbox → Type 0
HasKeys s = IsDistinct same_key (map key_of s.deliveries)

map-update_first :
    (test : Delivery → Bool) (f : Delivery → Delivery)
    → ((d : Delivery) → key_of (f d) ≡ key_of d)
    → (ds : List Delivery) → map key_of (update_first test f ds) ≡ map key_of ds
unfolding update_first
map-update_first test f kept [] = refl
map-update_first test f kept (d ∷ ds) = elim (Bool-cases (test d)) [
  | inl h ↦ rw (h, kept d) refl
  | inr h ↦ rw (h, map-update_first test f kept ds) refl
]

map-update_where :
    (test : Delivery → Bool) (f : Delivery → Delivery)
    → ((d : Delivery) → key_of (f d) ≡ key_of d)
    → (ds : List Delivery) → map key_of (update_where test f ds) ≡ map key_of ds
map-update_where test f kept [] = refl
map-update_where test f kept (d ∷ ds) = elim (Bool-cases (test d)) [
  | inl h ↦ rw (h, kept d, map-update_where test f kept ds) refl
  | inr h ↦ rw (h, map-update_where test f kept ds) refl
]

pub update_delivery-Keeps :
    (now : ℤ) (id : ℕ) (change : Delivery → Delivery)
    → ((d : Delivery) → key_of (change d) ≡ key_of d)
    → Keeps HasKeys (update_delivery now id change)
unfolding update_delivery Keeps
update_delivery-Keeps now id change kept s keys =
    rw
      (map-update_first (is_delivery id) (λ d. record (change d) { updated_at = now }) kept
        s.deliveries)
      keys

pub update_endpoint-Keeps :
    (id : ℕ) (change : Endpoint → Endpoint) → Keeps HasKeys (update_endpoint id change)
unfolding update_endpoint Keeps
update_endpoint-Keeps id change s keys = elim (Option-cases (find_endpoint id s)) [
  | inl h ↦ rw (h, update_endpoint) keys
  | inr (e, h) ↦ rw (h, update_endpoint) keys
]

pub sweep_queued-Keeps : (now : ℤ) (id : ℕ) → Keeps HasKeys (sweep_queued now id)
unfolding sweep_queued Keeps
sweep_queued-Keeps now id s keys =
    rw (map-update_where (is_queued id) (swept_row now) (λ d. refl) s.deliveries) keys

any-map :
    {A B : Type 0} (f : A → B) (p : B → Bool) (xs : List A)
    → any p (map f xs) ≡ any (λ x. p (f x)) xs
any-map f p [] = refl
any-map f p (x ∷ xs) = rw (any-map f p xs) refl

map-snoc :
    {A B : Type 0} (f : A → B) (xs : List A) (x : A)
    → map f (xs ++ (x ∷ [])) ≡ map f xs ++ (f x ∷ [])
map-snoc f [] x = refl
map-snoc f (y ∷ xs) x = rw (map-snoc f xs x) refl

==_sym : (a b : ℕ) → (a == b) ≡ (b == a)
==_sym a b = ground arith

same_key_sym : (k j : Key) → same_key k j ≡ same_key j k
same_key_sym k j =
    rw
      (==_sym j.event_id k.event_id, ==_sym j.endpoint_id k.endpoint_id, ==_sym j.attempt k.attempt)
      refl

-- An upsert makes a row only for a key that no row has.
pub upsert_delivery-Keeps :
    (now : ℤ) (event_id : ℕ) (endpoint : Endpoint) (attempt : ℕ)
    → Keeps HasKeys (upsert_delivery now event_id endpoint attempt)
unfolding upsert_delivery create_unless create_delivery Keeps
upsert_delivery-Keeps now event_id endpoint attempt s keys =
    elim (Bool-cases (attempt_exists event_id endpoint.id attempt s)) [
      | inl there ↦ rw (◌>>=◌, there) keys
      | inr new ↦
          let key : Key = record {
            event_id = event_id;
            endpoint_id = endpoint.id;
            attempt = attempt;
          } in
          rw (◌>>=◌, new, map-snoc key_of s.deliveries _)
            (IsDistinct-snoc same_key (map key_of s.deliveries) key (λ k. same_key_sym k key)
              (any-map key_of (same_key key) s.deliveries ∙ new) keys)
    ]

pub ruleset keys_rules = (
  Keeps->>=, pure-Keeps, gets-Keeps, lift-Keeps, if-Keeps, on_error-Keeps, update_delivery-Keeps,
  update_endpoint-Keeps, sweep_queued-Keeps, upsert_delivery-Keeps, refl,
)

disable_when-Keeps : (b : Bool) (now : ℤ) (id : ℕ) → Keeps HasKeys (disable_when b now id)
unfolding disable_when disable_endpoint
disable_when-Keeps true now id = search keys_rules
disable_when-Keeps false now id = search keys_rules

pub finalize_failure-Keeps :
    (options : DispatcherOptions) (now : ℤ) (random : Fraction) (id attempt endpoint_id : ℕ)
    (http_status : Option ℕ)
    → Keeps HasKeys (finalize_failure options now random id attempt endpoint_id http_status)
unfolding finalize_failure judge_failure fail_attempt write_failure
finalize_failure-Keeps options now random id attempt endpoint_id http_status =
    search (keys_rules, disable_when-Keeps)
