-- ===== src/Api/Idempotency.antt =====
-- apps/api/src/common/idempotency.service.ts: `IdempotencyService.execute`. The SHA-256 of the body's
-- JSON is a parameter, `hash_body`, and so is what the column `response_body` gives back of a body,
-- `from_column`. The handler is a computation of its own on the rest of the state. The two readings of
-- the clock are fields of the call, and so is whether the delete that releases the key succeeds; the
-- other queries are taken to succeed.
use crypto_payment.Prelude.{
  ℕ, ◌+◌, ◌*◌, String, Bool, not, ◌&&◌, true, false, Option, none, some, List, ◌∷◌, Result, ok, err,
  any, find, filter, update_where, ◌==◌, str_eq, if◌then◌else◌,
}
use crypto_payment.Prelude.Effect.{Eff, pure, gets, lift, on_throw, modify, ◌>>=◌, ◌>>◌}

-- `where: { merchantId_endpoint_key: … }`
pub record KeyTriple : Type 0 where
  pub merchant_id : ℕ
  pub endpoint : String
  pub key : String

abbrev pub same_triple : KeyTriple → KeyTriple → Bool
same_triple t u =
    (t.merchant_id == u.merchant_id) && str_eq t.endpoint u.endpoint && str_eq t.key u.key

-- `model IdempotencyKey`
pub record KeyRow (A : Type 0) : Type 0 where
  pub triple : KeyTriple
  pub request_hash : String
  pub locked_at : ℕ
  pub response_status : Option ℕ
  pub response_body : Option A
  pub completed_at : Option ℕ
  pub expires_at : ℕ

pub record Params (Body : Type 0) : Type 0 where
  pub triple : KeyTriple
  pub request_body : Body
  pub ttl_ms : Option ℕ
  pub now : ℕ
  pub completed : ℕ
  pub delete_succeeds : Bool

-- What the handler returns, and what the caller gets: the columns that are replayed may be null.
pub record Response (A : Type 0) : Type 0 where
  pub status : ℕ
  pub body : A

pub record Outcome (A : Type 0) : Type 0 where
  pub status : Option ℕ
  pub body : Option A
  pub replayed : Bool

pub data ExecuteError (E : Type 0) : Type 0 where
  idempotency_key_reused : ExecuteError E
  idempotent_request_in_flight : ExecuteError E
  handler_threw : E → ExecuteError E

pub record Service (A W : Type 0) : Type 0 where
  pub keys : List (KeyRow A)
  pub rest : W

-- The type of `execute` and of its parts.
abbrev pub ServiceIo : Type 0 → Type 0 → Type 0 → Type 0 → Type 0
ServiceIo A W E B = Eff (Service A W) (ExecuteError E) B

abbrev pub ttl_of : Option ℕ → ℕ
ttl_of none = 24 * 60 * 60 * 1000
ttl_of (some ms) = ms

module _ {A : Type 0} where
  abbrev pub has_triple : KeyTriple → KeyRow A → Bool
  has_triple t row = same_triple row.triple t

  -- A stored row under the same key: `if (existing)`.
  unfoldable pub replay_stored :
      {E : Type 0} → String → KeyRow A → Result (ExecuteError E) (Outcome A)
  replay_stored request_hash row =
      if not (str_eq row.request_hash request_hash)
      then err idempotency_key_reused
      else (elim row.completed_at [
        | some at ↦
            ok (record { status = row.response_status; body = row.response_body; replayed = true })
        | none ↦ err idempotent_request_in_flight
      ])

  abbrev pub first_outcome : Response A → Outcome A
  first_outcome response = record {
    status = some response.status;
    body = some response.body;
    replayed = false;
  }

  abbrev pub new_key : {Body : Type 0} → String → Params Body → KeyRow A
  new_key request_hash params = record {
    triple = params.triple;
    request_hash = request_hash;
    locked_at = params.now;
    response_status = none;
    response_body = none;
    completed_at = none;
    expires_at = params.now + ttl_of params.ttl_ms;
  }

  abbrev pub with_response : ℕ → ℕ → A → KeyRow A → KeyRow A
  with_response at status body row = record row {
    response_status = some status;
    response_body = some body;
    completed_at = some at;
  }

  module _ {W : Type 0} where
    -- `idempotencyKey.create`, which the unique constraint on the triple may refuse.
    unfoldable pub create_key : {E : Type 0} → KeyRow A → ServiceIo A W E (Unit {0})
    create_key row s =
        if any (has_triple row.triple) s.keys
        then (err idempotent_request_in_flight, s)
        else (ok tt, record s { keys = row ∷ s.keys })

    abbrev pub delete_key : KeyTriple → Service A W → Service A W
    delete_key t s = record s { keys = filter (λ row. not (has_triple t row)) s.keys }

    -- The delete after a handler that threw, with its `.catch(() => {})`.
    abbrev pub release : Bool → KeyTriple → Service A W → Service A W
    release true t s = delete_key t s
    release false t s = s

    abbrev pub update_key : KeyTriple → (KeyRow A → KeyRow A) → Service A W → Service A W
    update_key t f s = record s { keys = update_where (has_triple t) f s.keys }

    -- The handler, on its own part of the state.
    unfoldable pub run_handler : {E : Type 0} → Eff W E (Response A) → ServiceIo A W E (Response A)
    run_handler handler s =
        let r = handler s.rest in
        elim r.0 [
          | ok response ↦ (ok response, record s { rest = r.1 })
          | err e ↦ (err (handler_threw e), record s { rest = r.1 })
        ]

module _ {Body A W E : Type 0} (hash_body : Body → String) (from_column : A → A) where
  unfoldable pub finish : Params Body → Response A → ServiceIo A W E (Outcome A)
  finish params response = do
    modify (
        update_key params.triple
          (with_response params.completed response.status (from_column response.body)))
    pure (first_outcome response)

  unfoldable pub claim_and_run : Params Body → Eff W E (Response A) → ServiceIo A W E (Outcome A)
  claim_and_run params handler = do
    create_key (new_key (hash_body params.request_body) params)
    response ← on_throw (run_handler handler) (release params.delete_succeeds params.triple)
    finish params response

  unfoldable pub execute_found :
      Params Body → Eff W E (Response A) → Option (KeyRow A) → ServiceIo A W E (Outcome A)
  execute_found params handler none = claim_and_run params handler
  execute_found params handler (some row) =
      lift (λ s. replay_stored (hash_body params.request_body) row)

  unfoldable pub execute : Params Body → Eff W E (Response A) → ServiceIo A W E (Outcome A)
  execute params handler = do
    existing ← gets (λ s. find (has_triple params.triple) s.keys)
    execute_found params handler existing
