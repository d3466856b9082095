-- ===== src/Webhooks/Budget.antt =====
-- The budget of attempts of an endpoint, through the operations of packages/webhooks/src/dispatcher.ts on
-- the rows that are there.
pub mod Attempts
pub mod Retries
pub mod Runs
use crypto_payment.Prelude.{
  take, ℕ, suc, ◌+◌, ◌≤◌, ◌<◌, Bool, true, false, not, ◌&&◌, Option, none, some, List, [], ◌∷◌,
  ◌++◌, ok, err, All, All-append, find, ◌==◌, ==_iff, ◌≡◌, ◌∙◌, refl, sym, ap, subst, inl, inr,
  Bool-cases, Option-cases, if◌then◌else◌, arith, leb→gt, leb, update_where, Result-cases,
}
use crypto_payment.Prelude.Effect.{
  Eff, Keeps, Yields, Keeps->>=, Keeps-after, gets-Yields, on_error-Keeps, for_each-Keeps, lift,
  pure, modify, gets, pure-Keeps, lift-Keeps, gets-Keeps, if-Keeps, on_error, ◌>>=◌, ◌>>◌,
}
use crypto_payment.Prelude.Int.{ℤ}
use crypto_payment.Webhooks.Outbox.{
  DeliveryStatus, pending, in_flight, delivered, failed, exhausted, abandoned, Endpoint, Delivery,
  Event, Outbox, DispatchError, update_first, update_delivery, update_endpoint, create_delivery,
  is_endpoint, is_delivery, find_endpoint, find_delivery, record_not_found, cannot_decrypt,
}
use crypto_payment.Webhooks.Dispatcher.{
  DispatcherOptions, World, Answer, blocked, undecryptable, no_response, responded,
  disable_endpoint, disable_when, is_queued, finalize_failure, finalize_success, sweep_queued,
  swept_row, disabled_endpoint, one_more_failure, no_failures, failed_row, delivered_row,
  write_failure, fail_attempt, judge_failure, failure_status, send, abandon, claim_and_send,
  attempt_pending, attempt_found, attempt_delivery, has_status, set_status, next_retry,
  failure_outcome, is_enabled, was_delivered, was_abandoned, skipped,
}
use crypto_payment.Webhooks.Retry.{Fraction, is_success_status}
use crypto_payment.Webhooks.Rows.{
  LeavesRoom, IsPlanned, IsWithinBudget, IsSoundRow, IsSoundBox, All-update_first,
}
use crypto_payment.Prelude.Every.{All-find, All-update_where}

module _ (budget endpoint_of attempt_of : ℕ → ℕ) where
  abbrev pub Sound : Outbox → Type 0
  Sound = IsSoundBox budget endpoint_of attempt_of

  abbrev pub Row : ℕ → Delivery → Type 0
  Row = IsSoundRow budget endpoint_of attempt_of

  -- A write keeps the plan where it keeps the key of the row and leaves room for a retry.
  pub update_delivery-Keeps :
      (now : ℤ) (id : ℕ) (change : Delivery → Delivery)
      → ((n : ℕ) (d : Delivery)
          → is_delivery id d ≡ true
          → Row n d
          → Row n (record (change d) { updated_at = now }))
      → Keeps Sound (update_delivery now id change)
  unfolding update_delivery Keeps
  update_delivery-Keeps now id change keeps s (endpoints, rows) = (
    endpoints,
    All-update_first (Row s.next_id) (is_delivery id) _ (keeps s.next_id) s.deliveries rows,
  )

  update_endpoint-Keeps :
      (id : ℕ) (change : Endpoint → Endpoint)
      → ((e : Endpoint) → IsPlanned budget e → IsPlanned budget (change e))
      → ((e : Endpoint) → (change e).max_attempts ≡ e.max_attempts)
      → Yields Sound (λ e. e.max_attempts ≡ budget id) (update_endpoint id change)
  unfolding update_endpoint Yields
  update_endpoint-Keeps id change keeps same s (endpoints, rows) =
      elim (Option-cases (find_endpoint id s)) [
        | inl h ↦ rw (h, update_endpoint) ((endpoints, rows), λ a k. cc k)
        | inr (e, h) ↦
            let ((planned, positive), here) =
              All-find (IsPlanned budget) (is_endpoint id) s.endpoints h endpoints in
            rw (h, update_endpoint)
              (
                (
                  All-update_first (IsPlanned budget) (is_endpoint id) change (λ x t. keeps x)
                      s.endpoints endpoints,
                  rows,
                ),
                λ a k.
                    let written : change e ≡ a = cc k in
                    ap (λ (x : Endpoint). x.max_attempts) (sym written)
                    ∙ same e
                    ∙ planned
                    ∙ ap budget ((==_iff e.id id).0 here),
              )
      ]

  sweep_queued-Keeps : (now : ℤ) (id : ℕ) → Keeps Sound (sweep_queued now id)
  unfolding sweep_queued Keeps
  sweep_queued-Keeps now id s (endpoints, rows) = (
    endpoints,
    All-update_where (Row s.next_id) (is_queued id) (swept_row now)
        (λ d (budgeted, below, dst, att). ((budgeted.0, budgeted.1, tt), below, dst, att))
        s.deliveries rows,
  )

  disable_when-Keeps : (b : Bool) (now : ℤ) (id : ℕ) → Keeps Sound (disable_when b now id)
  unfolding disable_when disable_endpoint
  disable_when-Keeps true now id =
      Keeps-after Sound (λ (e : Endpoint). e.max_attempts ≡ budget id)
        (update_endpoint id (disabled_endpoint now)) (λ e. sweep_queued now id)
        (update_endpoint-Keeps id (disabled_endpoint now) (λ e p. p) (λ e. refl))
        (λ e q. sweep_queued-Keeps now id)
  disable_when-Keeps false now id = pure-Keeps DispatchError Sound tt

  -- Where an attempt that failed gets the status FAILED, there is budget left.
  failure-LeavesRoom :
      (gone disabled : Bool) (attempt limit : ℕ)
      → leb limit attempt ≡ gone
      → LeavesRoom (failure_status gone disabled) attempt limit
  failure-LeavesRoom true disabled attempt limit h = tt
  failure-LeavesRoom false true attempt limit h = tt
  failure-LeavesRoom false false attempt limit h = leb→gt limit attempt h

  write_failure-Keeps :
      (now : ℤ) (id : ℕ) (http_status : Option ℕ) (gone disabled : Bool) (at : Option ℤ)
      → leb (budget (endpoint_of id)) (attempt_of id) ≡ gone
      → Keeps Sound (write_failure now id http_status gone disabled at)
  unfolding write_failure
  write_failure-Keeps now id http_status gone disabled at judged =
      Keeps->>= Sound (update_delivery now id (failed_row now http_status gone disabled at))
        (λ u. pure (failure_outcome gone disabled))
        (update_delivery-Keeps now id (failed_row now http_status gone disabled at)
          (λ n d here (budgeted, below, dst, att).
            let same : d.id ≡ id = (==_iff d.id id).0 here in
            let judged' : leb (budget d.endpoint_id) d.attempt ≡ gone =
              rw (dst, att, same) judged in
            (
              (
                budgeted.0,
                budgeted.1,
                failure-LeavesRoom gone disabled d.attempt (budget d.endpoint_id) judged',
              ),
              below,
              dst,
              att,
            )))
        (λ u. pure-Keeps DispatchError Sound (failure_outcome gone disabled))

  fail_attempt-Keeps :
      (now : ℤ) (random : Fraction) (id : ℕ) (http_status : Option ℕ) (gone disabled : Bool)
      → leb (budget (endpoint_of id)) (attempt_of id) ≡ gone
      → Keeps Sound
          (fail_attempt now random id (attempt_of id) (endpoint_of id) http_status gone disabled)
  unfolding fail_attempt
  fail_attempt-Keeps now random id http_status gone disabled judged =
      Keeps->>= Sound (disable_when disabled now (endpoint_of id)) _
        (disable_when-Keeps disabled now (endpoint_of id))
        (λ u.
          Keeps->>= Sound
            (lift (λ s. next_retry (not gone && not disabled) now random (attempt_of id)))
            (write_failure now id http_status gone disabled) (lift-Keeps DispatchError Sound _)
            (λ at. write_failure-Keeps now id http_status gone disabled at judged))

  module _ (options : DispatcherOptions) where
    finalize_failure-Keeps :
        (now : ℤ) (random : Fraction) (id : ℕ) (http_status : Option ℕ)
        → Keeps Sound
            (finalize_failure options now random id (attempt_of id) (endpoint_of id) http_status)
    unfolding finalize_failure judge_failure
    finalize_failure-Keeps now random id http_status =
        Keeps-after Sound (λ (e : Endpoint). e.max_attempts ≡ budget (endpoint_of id))
          (update_endpoint (endpoint_of id) one_more_failure)
          (judge_failure options now random id (attempt_of id) (endpoint_of id) http_status)
          (update_endpoint-Keeps (endpoint_of id) one_more_failure (λ e p. p) (λ e. refl))
          (λ e limit.
            fail_attempt-Keeps now random id http_status (leb e.max_attempts (attempt_of id)) _
              (ap (λ n. leb n (attempt_of id)) (sym limit)))

    -- A row that has the key of its id.
    abbrev pub HasKey : Delivery → Type 0
    HasKey d = (d.endpoint_id ≡ endpoint_of d.id) × (d.attempt ≡ attempt_of d.id)

    pub fail_row-Keeps :
        (now : ℤ) (random : Fraction) (d : Delivery) (http_status : Option ℕ)
        → HasKey d
        → Keeps Sound (finalize_failure options now random d.id d.attempt d.endpoint_id http_status)
    fail_row-Keeps now random d http_status (dst, att) =
        rw (dst, att) (finalize_failure-Keeps now random d.id http_status)

    pub finalize_success-Keeps :
        (now : ℤ) (id endpoint_id http_status : ℕ)
        → Keeps Sound (finalize_success options now id endpoint_id http_status)
    unfolding finalize_success
    finalize_success-Keeps now id endpoint_id http_status =
        Keeps->>= Sound (update_delivery now id (delivered_row now http_status)) _
          (update_delivery-Keeps now id (delivered_row now http_status)
            (λ n d here (budgeted, below, dst, att).
              ((budgeted.0, budgeted.1, tt), below, dst, att)))
          (λ u.
            Keeps-after Sound (λ (e : Endpoint). e.max_attempts ≡ budget endpoint_id)
              (update_endpoint endpoint_id no_failures) _
              (update_endpoint-Keeps endpoint_id no_failures (λ e p. p) (λ e. refl))
              (λ e q. pure-Keeps DispatchError Sound was_delivered))
