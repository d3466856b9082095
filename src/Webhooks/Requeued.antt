-- ===== src/Webhooks/Requeued.antt =====
-- What `promoteDueRetries` of packages/webhooks/src/dispatcher.ts leaves behind.
use crypto_payment.Prelude.{
  length, ◌-◌, ◌≤◌, take, ℕ, suc, ◌+◌, Bool, true, false, Option, none, some, List, [], ◌∷◌, ◌++◌,
  All, filter, find, ◌≡◌, ◌∙◌, refl, ap,
}
use crypto_payment.Prelude.Effect.{
  Keeps, Keeps->>=, Keeps-after, gets-Yields, for_each-Keeps, pure, gets, pure-Keeps, gets-Keeps,
}
use crypto_payment.Prelude.Int.{ℤ, ◌≤ℤ◌}
use crypto_payment.Webhooks.Outbox.{
  Endpoint, Delivery, Outbox, DispatchError, create_delivery, find_endpoint, is_endpoint,
}
use crypto_payment.Webhooks.Dispatcher.{DispatcherOptions, is_enabled, endpoint_enabled}
use crypto_payment.Webhooks.RetryOrder.{batch_begins}
use crypto_payment.Webhooks.Poll.{
  create_unless, attempt_exists, upsert_delivery, is_due_retry, sort_by_retry, retry_on,
  promote_found, promote, due_retries, promote_due_retries,
}

filter-snoc :
    {A : Type 0} (test : A → Bool) (x : A)
    → test x ≡ false
    → (xs : List A) → filter test (xs ++ (x ∷ [])) ≡ filter test xs
filter-snoc test x new [] = rw new
filter-snoc test x new (y ∷ xs) = rw (filter-snoc test x new xs)

module _ (now later : ℤ) (s : Outbox) where
  -- The retries that are due, and the endpoints, are those of `s`.
  abbrev SameDue : Outbox → Type 0
  SameDue t =
      (filter (is_due_retry later) t.deliveries ≡ filter (is_due_retry later) s.deliveries)
      × (t.endpoints ≡ s.endpoints)

  create_delivery-same :
      (event_id : ℕ) (endpoint : Endpoint) (attempt : ℕ)
      → Keeps SameDue (create_delivery now event_id endpoint attempt)
  unfolding create_delivery Keeps
  create_delivery-same event_id endpoint attempt t (due, endpoints) =
      (filter-snoc (is_due_retry later) _ refl t.deliveries ∙ due, endpoints)

  create_unless-same :
      (exists : Bool) (event_id : ℕ) (endpoint : Endpoint) (attempt : ℕ)
      → Keeps SameDue (create_unless exists now event_id endpoint attempt)
  unfolding create_unless
  create_unless-same true event_id endpoint attempt = pure-Keeps DispatchError SameDue tt
  create_unless-same false event_id endpoint attempt =
      create_delivery-same event_id endpoint attempt

  retry_on-same :
      (promoted : ℕ) (previous : Delivery) (enabled : Bool) (endpoint : Endpoint)
      → enabled ≡ true
      → Keeps SameDue (retry_on now promoted previous enabled endpoint)
  unfolding retry_on upsert_delivery
  retry_on-same promoted previous false endpoint h = cc h
  retry_on-same promoted previous true endpoint h =
      let attempt = previous.attempt + 1 in
      Keeps->>= SameDue (upsert_delivery now previous.event_id endpoint attempt)
        (λ u. pure (suc promoted))
        (Keeps->>= SameDue (gets (attempt_exists previous.event_id endpoint.id attempt))
          (λ exists. create_unless exists now previous.event_id endpoint attempt)
          (gets-Keeps DispatchError SameDue (attempt_exists previous.event_id endpoint.id attempt))
          (λ exists. create_unless-same exists previous.event_id endpoint attempt))
        (λ u. pure-Keeps DispatchError SameDue (suc promoted))

  abbrev Enabled : Option Endpoint → Type 0
  Enabled found = is_enabled found ≡ true

  promote_found-same :
      (promoted : ℕ) (previous : Delivery) (found : Option Endpoint)
      → Enabled found
      → Keeps SameDue (promote_found now promoted previous found)
  unfolding promote_found
  promote_found-same promoted previous none h = cc h
  promote_found-same promoted previous (some e) h = retry_on-same promoted previous e.enabled e h

  promote-same :
      (promoted : ℕ) (previous : Delivery)
      → endpoint_enabled previous s ≡ true
      → Keeps SameDue (promote now promoted previous)
  unfolding promote
  promote-same promoted previous enabled =
      Keeps-after SameDue Enabled (gets (find_endpoint previous.endpoint_id))
        (promote_found now promoted previous)
        (gets-Yields DispatchError SameDue Enabled (find_endpoint previous.endpoint_id)
          (λ t (due, endpoints).
            ap (λ es. is_enabled (find (is_endpoint previous.endpoint_id) es)) endpoints ∙ enabled))
        (promote_found-same promoted previous)

-- Where the endpoints of the batch are enabled, promoting the retries that are due leaves the rows that
-- were promoted at the head of the query for due retries: at any time from then on, on the state that
-- the promotion leaves, the query gives the same batch first, in the same order, and takes other rows
-- only as far as the batch was not full.
pub promoted_retries_stay_due :
    (options : DispatcherOptions) (now later : ℤ) (s : Outbox)
    → now ≤ℤ later
    → All (λ d. endpoint_enabled d s ≡ true) (due_retries options now s)
    → let batch = due_retries options now s in
      (rest : List Delivery) × (due_retries options later (promote_due_retries options now s).1
        ≡ batch ++ rest)
      × (length rest ≤ options.batch_size - length batch)
unfolding promote_due_retries Keeps
promoted_retries_stay_due options now later s le enabled =
    let (due, endpoints) =
      for_each-Keeps (SameDue now later s) (λ d. endpoint_enabled d s ≡ true) (promote now)
        (promote-same now later s) (due_retries options now s) enabled 0 s (refl, refl) in
    let (rest, begins, few) = batch_begins options.batch_size now later s.deliveries le in
    (rest, ap (λ ds. take options.batch_size (sort_by_retry ds)) due ∙ begins, few)
