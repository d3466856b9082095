-- ===== src/Examples/Requests.antt =====
-- Two requests under one idempotency key, whose handler counts the invoices that it creates.
use crypto_payment.Prelude.{
  ℕ, suc, String, false, none, some, [], ◌∷◌, ok, err, if◌then◌else◌, str_eq, ◌≡◌, refl,
}
use crypto_payment.Prelude.Effect.{Eff}
use crypto_payment.Api.Idempotency.{
  KeyTriple, Params, Response, Outcome, Service, KeyRow, execute, execute_found, claim_and_run,
  create_key, run_handler, finish, replay_stored, handler_threw, idempotency_key_reused,
  idempotent_request_in_flight, new_key,
}
use crypto_payment.Api.FirstCall.{execute_failure_releases}
use crypto_payment.Api.Replay.{repeated, execute_again}

abbrev triple : KeyTriple
triple = record { merchant_id = 1; endpoint = "POST /v1/payment-invoices"; key = "order-7" }

abbrev request : String → Params String
request body = record {
  triple = triple;
  request_body = body;
  ttl_ms = none;
  now = 1000;
  completed = 1005;
  delete_succeeds = false;
}

abbrev create : Eff ℕ String (Response ℕ)
create count = (ok (record { status = 201; body = suc count }), suc count)

abbrev unavailable : Eff ℕ String (Response ℕ)
unavailable count = (err "database unavailable", count)

abbrev hash : String → String
hash body = body

abbrev column : ℕ → ℕ
column body = body

abbrev start : Service ℕ ℕ
start = record { keys = []; rest = 0 }

abbrev created : Outcome ℕ
created = record { status = some 201; body = some 1; replayed = false }

abbrev row : KeyRow ℕ
row = record {
  triple = triple;
  request_hash = "amount=5";
  locked_at = 1000;
  response_status = some 201;
  response_body = some 1;
  completed_at = some 1005;
  expires_at = 86401000;
}

abbrev after : Service ℕ ℕ
after = record { keys = row ∷ []; rest = 1 }

created_run : execute hash column (request "amount=5") create start ≡ (ok created, after)
unfolding execute execute_found claim_and_run create_key run_handler finish
created_run = refl

-- The handler of the second request would create a second invoice; it is refused.
refused_run :
    execute hash column (request "amount=6") create after ≡ (err idempotency_key_reused, after)
unfolding execute execute_found replay_stored
refused_run = refl

execute_again_example : execute hash column (request "amount=5") create after ≡ (
  (if str_eq "amount=5" "amount=5"
      then ok (repeated column created)
      else err idempotency_key_reused),
  after,
)
execute_again_example =
    execute_again hash column (request "amount=5") (request "amount=5") create create start
      created_run refl

-- The database is away when the handler runs and when its key is to be released.
abbrev locked_row : KeyRow ℕ
locked_row = new_key "amount=5" (request "amount=5")

abbrev locked : Service ℕ ℕ
locked = record { keys = locked_row ∷ []; rest = 0 }

execute_failure_releases_example :
    (execute hash column (request "amount=5") unavailable start
      ≡ (err (handler_threw "database unavailable"), locked))
    × (execute hash column (request "amount=5") create locked
        ≡ (err idempotent_request_in_flight, locked))
execute_failure_releases_example =
    execute_failure_releases hash column (request "amount=5") (request "amount=5") unavailable
      create start refl refl refl refl
