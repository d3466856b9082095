-- ===== src/Examples/Services.antt =====
-- A signing request of two approvals, a webhook endpoint that fails, a node with two blocks, and an amount.
use crypto_payment.Prelude.{
  ◌-◌, ◌++◌, min, ℕ, ◌+◌, ◌*◌, ◌^◌, ◌<◌, ◌≤◌, true, ◌↔◌, none, some, List, [], ◌∷◌, ok, ◌≡◌, refl,
  sym, ap, arith, map, find, All, ◌>>=◌, length,
}
use crypto_payment.Prelude.Int.{ℤ, pos, negsuc}
use crypto_payment.Money.Decimal.{ceil}
use crypto_payment.Money.Natural.{amount}
use crypto_payment.Money.ExchangeRate.{convert_quote_to_base}
use crypto_payment.Money.Pricing.{rate_of, price_covers_amount}
use crypto_payment.Money.Text.{format_units, parse_units}
use crypto_payment.Money.Text.RoundTrip.{parse-format_units}
use crypto_payment.Payments.Confirmations.{codes}
use crypto_payment.Api.InvoiceCommands.{cancelled_row, write_cancel}
use crypto_payment.Api.CancelRace.{write_cancel_overrides}
use crypto_payment.Monitor.Records.{same_invoice}
use crypto_payment.Invoice.Status.{paid, pending, underpaid, expired}
use crypto_payment.Invoice.StateMachine.{is_actor_allowed}
use crypto_payment.Invoice.StateMachine.Table.{system}
use crypto_payment.Monitor.Store.{Db}
use crypto_payment.Worker.ExpirySweep.{is_sweepable, candidates, sweep_expired_invoices}
use crypto_payment.Worker.Overdue.{Swept, IsResolved, is_sweepable_iff}
use crypto_payment.Worker.Sweep.{sweep_resolves}
use crypto_payment.Examples.Samples.{sample_db, sample_invoice, sample_transfer}
use crypto_payment.Signing.Policy.{SigningRequest, SigningPolicy}
use crypto_payment.Signing.Service.{Backend}
use crypto_payment.Signing.Authorised.{IsAuthorised, WithinWindow}
use crypto_payment.Signing.Runs.{
  Call, submit_call, approve_call, run, no_requests, signed_within_policy,
}
use crypto_payment.Webhooks.Retry.{Fraction, RetryPolicyOptions, compute_retry_delay_ms}
use crypto_payment.Webhooks.RetryLaws.{retry_delay_bounds}
use crypto_payment.Webhooks.Outbox.{Outbox, Event, Endpoint, Delivery, failed}
use crypto_payment.Webhooks.Dispatcher.{
  DispatcherOptions, World, responded, default_dispatcher_options,
}
use crypto_payment.Webhooks.Poll.{due_retries, promote_due_retries, insert_by_retry, sort_by_retry}
use crypto_payment.Webhooks.Keys.{key_of, same_key, IsDistinct, rows_of}
use crypto_payment.Webhooks.Rows.{IsWithinBudget}
use crypto_payment.Webhooks.Budget.Runs.{
  Turn, poll, arrive, run as run_polls, attempts-IsWithinBudget,
}
use crypto_payment.Webhooks.Requeued.{promoted_retries_stay_due}
use crypto_payment.Scanner.Discovery.{
  normalize_for_tracking, LightBlock, Address, scan_blocks, nothing_scanned,
}
use crypto_payment.Scanner.Tick.{Chain, discover, range_end}
use crypto_payment.Scanner.Coverage.{available, summarise, range_size, scan_blocks-available}
use crypto_payment.Scanner.Hashes.{Has}
use crypto_payment.Scanner.Tracked.{IsCovered}
use crypto_payment.Scanner.Complete.{IsRun, token_hashes, last_of, discover_complete}

parse-format_units_example :
    (do text ← format_units (negsuc 1499999) 6; parse_units text 6) ≡ ok (negsuc 1499999)
parse-format_units_example = parse-format_units (negsuc 1499999) 6 (omega arith)

-- 100.00 USD in ETH, at 3000 USD.
price_covers_amount_example :
    (q : ℕ) × (convert_quote_to_base
        (rate_of "ETH" "USD" (3000 * 10 ^ 18) "feed" (pos 0))
        (amount "USD" 2 10000)
        18
        ceil
      ≡ ok (amount "ETH" 18 q))
    × (10000 * 10 ^ 18 * 10 ^ 18 ≤ q * (10 ^ 2 * (3000 * 10 ^ 18)))
    × (q * (10 ^ 2 * (3000 * 10 ^ 18)) < 10000 * 10 ^ 18 * 10 ^ 18 + 10 ^ 2 * (3000 * 10 ^ 18))
price_covers_amount_example =
    price_covers_amount "ETH" "USD" "feed" (pos 0) (3000 * 10 ^ 18) 2 18 10000 (omega arith)
      (omega arith) (omega arith)

abbrev sample_policy : SigningPolicy
sample_policy = record {
  network = "ETHEREUM";
  allowed_destinations = "0xab" ∷ [];
  max_amount_per_tx = pos 500;
  max_amount_per_window = pos 900;
  window_seconds = pos 3600;
  required_approvals = 2;
}

abbrev sample_request : SigningRequest
sample_request = record {
  id = "r1";
  merchant_id = "m1";
  network = "ETHEREUM";
  asset = "USDT";
  from_address = "0xcd";
  to_address = "0xAB";
  amount = pos 400;
  requested_by = "alice";
  requested_at = pos 5000;
}

abbrev signs : Backend
signs request = ok (record { request_id = request.id; raw_tx_hex = "0x00"; signed_at = pos 6000 })

abbrev sample_calls : List Call
sample_calls =
    submit_call signs sample_request
    ∷ approve_call signs "r1" "bob"
    ∷ approve_call signs "r1" "carol"
    ∷ []

signed_within_policy_example :
    All (IsAuthorised sample_policy) (run sample_policy sample_calls no_requests).signatures
    × WithinWindow sample_policy (run sample_policy sample_calls no_requests).signatures
signed_within_policy_example = signed_within_policy sample_policy sample_calls

abbrev sample_endpoint : Endpoint
sample_endpoint = record {
  id = 1;
  merchant_id = 7;
  url = "https://shop.example/hook";
  event_types = [];
  enabled = true;
  max_attempts = 2;
  consecutive_failures = 0;
  disabled_at = none;
}

abbrev sample_event : Event
sample_event = record { id = 5; merchant_id = 7; type = "payment.paid" }

abbrev half : Fraction
half = record { num = 1; den = 2 }

abbrev failing : ℤ → World
failing now = record { now = now; answer = λ d. responded 500; random = λ d. half }

abbrev empty_outbox : Outbox
empty_outbox = record {
  events = [];
  endpoints = sample_endpoint ∷ [];
  deliveries = [];
  next_id = 10;
  bulk_abandoned = 0;
}

abbrev two_each : ℕ → ℕ
two_each endpoint_id = 2

abbrev sample_turns : List Turn
sample_turns = arrive sample_event ∷ poll (failing (pos 1000)) ∷ poll (failing (pos 90000)) ∷ []

attempts-IsWithinBudget_example :
    let rows = (run_polls default_dispatcher_options sample_turns empty_outbox).deliveries in
    (length (rows_of 5 1 rows) ≤ two_each 1)
    × All (IsWithinBudget two_each) rows
    × IsDistinct same_key (map key_of rows)
attempts-IsWithinBudget_example =
    attempts-IsWithinBudget default_dispatcher_options two_each sample_turns empty_outbox 5 1 refl
      ((refl, omega arith), tt)

abbrev tenth : Fraction
tenth = record { num = 1; den = 10 }

-- The third failure, of a policy with an odd base: the value is 4 * 333 and the delay 1119.
abbrev short_options : RetryPolicyOptions
short_options = record {
  base_delay_ms = 333;
  max_delay_ms = 60000;
  jitter_ratio = record { num = 1; den = 5 };
}

retry_delay_bounds_example :
    let e = min 60000 (333 * 2 ^ 2) in
    (delay : ℕ) × (compute_retry_delay_ms short_options tenth 3 ≡ ok delay)
    × (delay ≤ 60000)
    × (2 * (5 * e) ≤ 2 * (5 * delay) + 2 * (1 * e) + 5)
    × (2 * (5 * delay) ≤ 2 * (5 * e) + 2 * (1 * e) + 5)
retry_delay_bounds_example = retry_delay_bounds short_options tenth 2 (omega arith) (omega arith)

abbrev failed_delivery : Delivery
failed_delivery = record {
  id = 2;
  event_id = 5;
  endpoint_id = 1;
  url = "https://shop.example/hook";
  attempt = 1;
  status = failed;
  http_status = some 500;
  scheduled_at = pos 1000;
  sent_at = some (pos 1000);
  next_retry_at = some (pos 31000);
  updated_at = pos 1000;
}

abbrev retry_outbox : Outbox
retry_outbox = record empty_outbox { events = sample_event ∷ []; deliveries = failed_delivery ∷ [] }

-- An attempt that fails in the meantime has to wait where a batch is one row.
abbrev one_by_one : DispatcherOptions
one_by_one = record default_dispatcher_options { batch_size = 1 }

promoted_retries_stay_due_example :
    (rest : List Delivery) × (due_retries one_by_one
        (pos 50000)
        (promote_due_retries one_by_one (pos 40000) retry_outbox).1
      ≡ due_retries one_by_one (pos 40000) retry_outbox ++ rest)
    × (length rest ≤ 1 - length (due_retries one_by_one (pos 40000) retry_outbox))
unfolding insert_by_retry sort_by_retry
promoted_retries_stay_due_example =
    promoted_retries_stay_due one_by_one (pos 40000) (pos 50000) retry_outbox (omega arith)
      (refl, tt)

abbrev ours : Address
ours = codes "0xab"

abbrev block_at : ℤ → LightBlock
block_at height = record {
  number = height;
  hash = "0xb1";
  transactions = record { hash = "0xt1"; to = some "0xAB"; value = pos 9 } ∷ [];
}

abbrev sample_chain : Chain
sample_chain = record {
  current_block = pos 8;
  light_block = λ height. some (block_at height);
  transfer_logs = λ from to contracts tracked. "0xt2" ∷ [];
  validate_address = λ address. true;
}

truly_numbered : (h : ℤ) (b : LightBlock) → sample_chain.light_block h ≡ some b → b.number ≡ h
truly_numbered h b e =
    let same : block_at h ≡ b = cc e in ap (λ (x : LightBlock). x.number) (sym same)

scan_blocks-available_example :
    scan_blocks sample_chain.light_block (ours ∷ []) 2 (pos 7) (pos 8) nothing_scanned
    ≡ summarise
        (ours ∷ [])
        nothing_scanned
        (available sample_chain.light_block (range_size (pos 7) (pos 8)) (pos 7))
scan_blocks-available_example =
    scan_blocks-available sample_chain.light_block (ours ∷ []) 2 (pos 7) (pos 8) (omega arith)

discover_complete_example :
    let to = range_end (pos 8) 50 (pos 7) in
    let tracked = map normalize_for_tracking ("0xaB" ∷ []) in
    let scan = discover sample_chain "ETHEREUM" 50 tracked (pos 7) to in
    let bs = available sample_chain.light_block (range_size (pos 7) to) (pos 7) in
    IsRun sample_chain.light_block (pos 7) bs
    × (scan.scanned_blocks ≡ length bs)
    × (length bs ≤ 50)
    × (length bs ≤ range_size (pos 7) (pos 8))
    × (scan.last_block ≡ last_of none bs)
    × All (IsCovered ("0xaB" ∷ []) scan.candidate_hashes) bs
    × All (Has scan.candidate_hashes) (token_hashes sample_chain "ETHEREUM" tracked (pos 7) bs)
discover_complete_example =
    discover_complete sample_chain "ETHEREUM" 50 ("0xaB" ∷ []) (pos 7) truly_numbered (refl, tt)

sweep_resolves_example :
    (db' : Db) × (n : ℕ) × (sweep_expired_invoices
        (pos 1000000)
        200
        (sample_db pending sample_transfer)
      ≡ (db', ok n))
    × Swept (pos 1000000) (sample_db pending sample_transfer) db'
    × All
        (IsResolved (pos 1000000) db')
        (candidates (pos 1000000) 200 (sample_db pending sample_transfer))
sweep_resolves_example = sweep_resolves (pos 1000000) 200 (sample_db pending sample_transfer)

is_sweepable_iff_example :
    (is_sweepable underpaid ≡ true) ↔ (is_actor_allowed underpaid expired system ≡ true)
is_sweepable_iff_example = is_sweepable_iff underpaid

-- The invoice was loaded as PENDING and has been paid since.
write_cancel_overrides_example :
    (db' : Db) × (write_cancel 1 (sample_invoice pending) (sample_db paid sample_transfer)
      ≡ ok (cancelled_row (sample_invoice paid), db'))
    × (find (same_invoice 1) db'.invoices ≡ some (cancelled_row (sample_invoice paid)))
write_cancel_overrides_example =
    write_cancel_overrides 1 (sample_invoice pending) (sample_invoice paid)
      (sample_db paid sample_transfer) refl refl
