-- ===== src/Webhooks/Budget/Runs.antt =====
-- The budget of a delivery over any number of polls of packages/webhooks/src/dispatcher.ts.
use crypto_payment.Prelude.{◌≤◌, map, length, ℕ, suc, none, List, [], ◌∷◌, ◌++◌, All, ◌≡◌}
use crypto_payment.Prelude.Effect.{
  Keeps, Keeps->>=, Keeps-after, gets-Yields, for_each-Keeps, gets, modify, pure-Keeps, gets-Keeps,
}
use crypto_payment.Prelude.Int.{ℤ}
use crypto_payment.Webhooks.Outbox.{Delivery, Event, Outbox, DispatchError}
use crypto_payment.Webhooks.Dispatcher.{DispatcherOptions, World, attempt_delivery}
use crypto_payment.Webhooks.Poll.{
  enqueue_event, unfanned_events, enqueue_new_deliveries, due_retries, promote, promote_due_retries,
  is_stale, stale_deliveries, recover_one, recover_stale_in_flight, due_deliveries, attempt_due,
  send_due, start_run, new_summary, with_swept, run_once, WebhookDispatchSummary, count_outcome,
}
use crypto_payment.Webhooks.Rows.{IsPlanned, IsWithinBudget, IsSoundRow, IsSoundBox, IsSound}
use crypto_payment.Prelude.Every.{All-filter, All-take, All-map}
use crypto_payment.Webhooks.Keys.{key_of, same_key, IsDistinct, rows_of}
use crypto_payment.Webhooks.Rooms.{rows-bounded}
use crypto_payment.Webhooks.Unique.{HasKeys}
use crypto_payment.Webhooks.Unique.Polls.{run_once-Keeps as run_once-HasKeys}
use crypto_payment.Webhooks.Budget.{fail_row-Keeps}
use crypto_payment.Webhooks.Budget.Attempts.{attempt_delivery-Keeps}
use crypto_payment.Webhooks.Budget.Retries.{
  of_rows, enqueue_event-Keeps, HasRoom, due_retries-HasRoom, promote-Keeps,
}

-- Between two polls the repository's services append events.
pub data Turn : Type 0 where
  poll : World → Turn
  arrive : Event → Turn

module _ (options : DispatcherOptions) where
  unfoldable pub take_turn : Turn → Outbox → Outbox
  take_turn (poll world) s = (run_once options world s).1
  take_turn (arrive event) s = record s { events = s.events ++ (event ∷ []) }

  -- The worker logs an error of a poll and goes on.
  unfoldable pub run : List Turn → Outbox → Outbox
  run [] s = s
  run (turn ∷ turns) s = run turns (take_turn turn s)

module _ (budget : ℕ → ℕ) (options : DispatcherOptions) where
  abbrev Sound : Outbox → Type 0
  Sound = IsSound budget

  recover-Keeps : (world : World) → Keeps Sound (recover_stale_in_flight options world)
  unfolding recover_stale_in_flight recover_one
  recover-Keeps world = of_rows budget (recover_stale_in_flight options world) (λ dst att.
      let Box : Outbox → Type 0 = IsSoundBox budget dst att in
      let Keyed : Delivery → Type 0 = λ d. (d.endpoint_id ≡ dst d.id) × (d.attempt ≡ att d.id) in
      Keeps-after Box (All Keyed) (gets (stale_deliveries options world.now)) _
        (gets-Yields DispatchError Box (All Keyed) (stale_deliveries options world.now)
          (λ s (endpoints, rows). All-take Keyed options.batch_size _ (
            All-map _ Keyed (λ d (row, stale). (row.2, row.3)) _
              (All-filter (IsSoundRow budget dst att s.next_id) (is_stale options world.now)
                s.deliveries rows))))
        (λ stale keyed.
          for_each-Keeps Box Keyed (recover_one options world)
            (λ n d key.
              Keeps->>= Box _ _
                (fail_row-Keeps budget dst att options world.now (world.random d) d none key)
                (λ u. pure-Keeps DispatchError Box (suc n)))
            stale keyed 0))

  any_of : {A : Type 0} (xs : List A) → All (λ x. Unit {0}) xs
  any_of [] = tt
  any_of (x ∷ xs) = (tt, any_of xs)

  enqueue-Keeps : (now : ℤ) → Keeps Sound (enqueue_new_deliveries options now)
  unfolding enqueue_new_deliveries
  enqueue-Keeps now =
      Keeps->>= Sound (gets (unfanned_events options)) _
        (gets-Keeps DispatchError Sound (unfanned_events options))
        (λ events.
          for_each-Keeps Sound (λ event. Unit {0}) (enqueue_event now)
            (λ created event u. enqueue_event-Keeps budget now created event) events (any_of events)
            0)

  promote_due-Keeps : (now : ℤ) → Keeps Sound (promote_due_retries options now)
  unfolding promote_due_retries
  promote_due-Keeps now =
      Keeps-after Sound (All (HasRoom budget)) (gets (due_retries options now)) _
        (gets-Yields DispatchError Sound (All (HasRoom budget)) (due_retries options now)
          (due_retries-HasRoom budget options now))
        (λ due rooms.
          for_each-Keeps Sound (HasRoom budget) (promote now) (promote-Keeps budget now) due rooms
            0)

  send_due-Keeps :
      (world : World) (summary : WebhookDispatchSummary)
      → Keeps Sound (send_due options world summary)
  unfolding send_due attempt_due
  send_due-Keeps world summary =
      Keeps->>= Sound (gets (due_deliveries options world.now)) _
        (gets-Keeps DispatchError Sound (due_deliveries options world.now))
        (λ due.
          for_each-Keeps Sound (λ d. Unit {0}) (attempt_due options world)
            (λ tally d u.
              Keeps->>= Sound (attempt_delivery options world d.id) _
                (of_rows budget (attempt_delivery options world d.id)
                  (λ dst att. attempt_delivery-Keeps budget dst att options world d.id))
                (λ outcome. pure-Keeps DispatchError Sound (count_outcome tally outcome)))
            due (any_of due) summary)

  start-Keeps : Keeps Sound (modify {E = DispatchError} start_run)
  unfolding Keeps
  start-Keeps s sound = sound

  run_once-Keeps : (world : World) → Keeps Sound (run_once options world)
  unfolding run_once
  run_once-Keeps world = Keeps->>= Sound _ _ start-Keeps (λ u.
      Keeps->>= Sound _ _ (recover-Keeps world) (λ recovered.
        Keeps->>= Sound _ _ (enqueue-Keeps world.now) (λ enqueued.
          Keeps->>= Sound _ _ (promote_due-Keeps world.now) (λ promoted.
            Keeps->>= Sound _ _ (send_due-Keeps world (new_summary recovered enqueued promoted))
              (λ summary. gets-Keeps DispatchError Sound (with_swept summary))))))

  run-Keeps : (turns : List Turn) (s : Outbox) → Sound s → Sound (run options turns s)
  unfolding run take_turn Keeps
  run-Keeps [] s sound = sound
  run-Keeps (poll world ∷ turns) s sound = run-Keeps turns _ (run_once-Keeps world s sound)
  run-Keeps (arrive event ∷ turns) s (dst, att, sound) = run-Keeps turns _ (dst, att, sound)

module _ (options : DispatcherOptions) where
  run-HasKeys : (turns : List Turn) (s : Outbox) → HasKeys s → HasKeys (run options turns s)
  unfolding run take_turn Keeps
  run-HasKeys [] s keys = keys
  run-HasKeys (poll world ∷ turns) s keys =
      run-HasKeys turns _ (run_once-HasKeys options world s keys)
  run-HasKeys (arrive event ∷ turns) s keys = run-HasKeys turns _ keys

-- Over any sequence of polls and new events, whatever the endpoints answer and wherever a poll stops
-- with an error, an event never has more rows of attempts at an endpoint than the endpoint's
-- `maxAttempts`. Every row is of an attempt from 1 to `maxAttempts`, no two rows of an event at an
-- endpoint are of the same attempt, and a row that is FAILED, so waits for a retry, has an attempt left.
-- It starts from a queue without deliveries, whose endpoints allow one attempt or more.
pub attempts-IsWithinBudget :
    (options : DispatcherOptions) (budget : ℕ → ℕ) (turns : List Turn) (s : Outbox)
    (event_id endpoint_id : ℕ)
    → s.deliveries ≡ []
    → All (IsPlanned budget) s.endpoints
    → let rows = (run options turns s).deliveries in
      (length (rows_of event_id endpoint_id rows) ≤ budget endpoint_id)
      × All (IsWithinBudget budget) rows
      × IsDistinct same_key (map key_of rows)
attempts-IsWithinBudget options budget turns s event_id endpoint_id empty planned =
    let start : IsSound budget s = ((λ n. 0), (λ n. 0), (planned, rw empty tt)) in
    let (dst, att, (endpoints, sound)) = run-Keeps budget options turns s start in
    let rows = (run options turns s).deliveries in
    let within = All-map _ (IsWithinBudget budget) (λ d row. row.0) rows sound in
    let none_yet : HasKeys s = rw empty tt in
    let distinct = run-HasKeys options turns s none_yet in
    (rows-bounded budget event_id endpoint_id rows distinct within, within, distinct)
