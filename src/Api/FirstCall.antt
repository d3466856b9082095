-- ===== src/Api/FirstCall.antt =====
-- apps/api/src/common/idempotency.service.ts: one call of `execute`, by its outcome.
use crypto_payment.Prelude.{
  if◌then◌else◌, str_eq, String, Bool, true, false, not, none, some, List, [], ◌∷◌, ok, err, Result,
  any, find, filter, update_where, ◌==◌, eq_iff, Bool-cases, ◌≡◌, refl, ap, ◌∙◌, inl, inr, arith,
}
use crypto_payment.Prelude.Effect.{Eff, on_throw, ◌>>=◌, >>=-ok, >>=-err, on_throw-ok, on_throw-err}
use crypto_payment.Api.Idempotency.{
  KeyTriple, same_triple, KeyRow, Params, Response, Outcome, ExecuteError, handler_threw,
  idempotent_request_in_flight, replay_stored, Service, has_triple, replay_stored, new_key,
  with_response, create_key, release, run_handler, first_outcome, finish, claim_and_run,
  execute_found, execute,
}

pub same_triple_refl : (t : KeyTriple) → same_triple t t ≡ true
same_triple_refl t =
    let same_id : (t.merchant_id == t.merchant_id) ≡ true = ground arith in
    let same_endpoint = (eq_iff t.endpoint t.endpoint).1 refl in
    let same_key = (eq_iff t.key t.key).1 refl in rw (same_id, same_endpoint, same_key) refl

-- A list with no row of the triple is not changed by the writes that pick it.
module _ {X : Type 0} (test : X → Bool) where
  find-any : (xs : List X) → find test xs ≡ none → any test xs ≡ false
  find-any [] e = refl
  find-any (x ∷ xs) e = elim (Bool-cases (test x)) [
    | inl h ↦ cc (rw h at e)
    | inr h ↦ rw h (find-any xs (rw h at e))
  ]

  find-update_where : (f : X → X) (xs : List X) → find test xs ≡ none → update_where test f xs ≡ xs
  find-update_where f [] e = refl
  find-update_where f (x ∷ xs) e = elim (Bool-cases (test x)) [
    | inl h ↦ cc (rw h at e)
    | inr h ↦ rw h (ap (λ ys. x ∷ ys) (find-update_where f xs (rw h at e)))
  ]

  find-filter : (xs : List X) → find test xs ≡ none → filter (λ x. not (test x)) xs ≡ xs
  find-filter [] e = refl
  find-filter (x ∷ xs) e = elim (Bool-cases (test x)) [
    | inl h ↦ cc (rw h at e)
    | inr h ↦ rw h (ap (λ ys. x ∷ ys) (find-filter xs (rw h at e)))
  ]

module _ {Body A E : Type 0} where
  replay_claimed :
      (hash_body : Body → String) (params : Params Body) (hash : String)
      → hash_body params.request_body ≡ hash
      → replay_stored {A = A} {E = E} hash (new_key (hash_body params.request_body) params)
        ≡ err idempotent_request_in_flight
  unfolding replay_stored
  replay_claimed hash_body params hash same =
      let equal : str_eq (hash_body params.request_body) hash ≡ true = (eq_iff _ _).1 same in
      rw equal refl

module _ {Body A W E : Type 0} (hash_body : Body → String) (from_column : A → A) where
  module _ (params : Params Body) (handler : Eff W E (Response A)) (s : Service A W) where
    abbrev claimed : KeyRow A
    claimed = new_key (hash_body params.request_body) params

    pub execute-found :
        {row : KeyRow A}
        → find (has_triple params.triple) s.keys ≡ some row
        → execute hash_body from_column params handler s
          ≡ (replay_stored (hash_body params.request_body) row, s)
    unfolding execute execute_found
    execute-found e = rw e refl

    abbrev pub completed_row : Response A → KeyRow A
    completed_row response =
        with_response params.completed response.status (from_column response.body) claimed

    abbrev with_claim : Service A W
    with_claim = record { keys = claimed ∷ s.keys; rest = s.rest }

    abbrev after_claim : Service A W → Result (ExecuteError E) (Outcome A) × Service A W
    after_claim =
        on_throw (run_handler handler) (release params.delete_succeeds params.triple)
        >>= (λ response. finish hash_body from_column params response)

    execute-new :
        find (has_triple params.triple) s.keys ≡ none
        → execute hash_body from_column params handler s ≡ after_claim with_claim
    unfolding execute execute_found claim_and_run create_key
    execute-new free = rw free (
        >>=-ok (create_key claimed) (λ t. after_claim) s
          (rw (find-any (has_triple params.triple) s.keys free) refl))

    abbrev wrapped : Result E (Response A) × W → Result (ExecuteError E) (Response A) × Service A W
    wrapped r = elim r.0 [
      | ok response ↦ (ok response, record with_claim { rest = r.1 })
      | err e ↦ (err (handler_threw e), record with_claim { rest = r.1 })
    ]

    handled :
        {r : Result E (Response A) × W}
        → handler s.rest ≡ r
        → run_handler handler with_claim ≡ wrapped r
    unfolding run_handler
    handled ran = ap wrapped ran

    pub execute-ran :
        {response : Response A} {w : W}
        → find (has_triple params.triple) s.keys ≡ none
        → handler s.rest ≡ (ok response, w)
        → execute hash_body from_column params handler s ≡ (
          ok (first_outcome response),
          record { keys = completed_row response ∷ s.keys; rest = w },
        )
    unfolding finish
    execute-ran {response} {w} free ran =
        execute-new free
        ∙ >>=-ok (on_throw (run_handler handler) (release params.delete_succeeds params.triple))
            (λ response. finish hash_body from_column params response) with_claim
            (on_throw-ok (run_handler handler) (release params.delete_succeeds params.triple)
              with_claim (handled ran))
        ∙ rw
            (
              same_triple_refl params.triple,
              find-update_where (has_triple params.triple)
                  (with_response params.completed response.status (from_column response.body))
                  s.keys free,
            )
            refl

    -- The state where the key stays claimed.
    abbrev locked : W → Service A W
    locked w = record { keys = claimed ∷ s.keys; rest = w }

    released :
        (succeeds : Bool) (w : W)
        → find (has_triple params.triple) s.keys ≡ none
        → release succeeds params.triple (locked w)
          ≡ record { keys = if succeeds then s.keys else claimed ∷ s.keys; rest = w }
    released true w free =
        rw (same_triple_refl params.triple, find-filter (has_triple params.triple) s.keys free) refl
    released false w free = refl

    pub execute-threw :
        {e : E} {w : W}
        → find (has_triple params.triple) s.keys ≡ none
        → handler s.rest ≡ (err e, w)
        → execute hash_body from_column params handler s
          ≡ (err (handler_threw e), release params.delete_succeeds params.triple (locked w))
    execute-threw free ran =
        execute-new free
        ∙ >>=-err (on_throw (run_handler handler) (release params.delete_succeeds params.triple))
            (λ response. finish hash_body from_column params response) with_claim
            (on_throw-err (run_handler handler) (release params.delete_succeeds params.triple)
              with_claim (handled ran))

  -- Where the handler of a call with a free key throws, what it threw is thrown on. If the delete of the
  -- key's row succeeds, the table of keys is as it was before the call. If it fails, the claimed row
  -- stays, and a later call with the key and the same body throws that a request is in flight.
  pub execute_failure_releases :
      (params later : Params Body) (handler other : Eff W E (Response A)) (s : Service A W) {e : E}
      {w : W}
      → find (has_triple params.triple) s.keys ≡ none
      → handler s.rest ≡ (err e, w)
      → later.triple ≡ params.triple
      → hash_body params.request_body ≡ hash_body later.request_body
      → let row = new_key (hash_body params.request_body) params in
        let kept : Service A W = record { keys = row ∷ s.keys; rest = w } in
        (execute hash_body from_column params handler s ≡ (
          err (handler_threw e),
          record { keys = if params.delete_succeeds then s.keys else row ∷ s.keys; rest = w },
        ))
        × (execute hash_body from_column later other kept
            ≡ (err idempotent_request_in_flight, kept))
  execute_failure_releases params later handler other s {e} {w} free ran same body =
      let row = new_key (hash_body params.request_body) params in
      let kept : Service A W = record { keys = row ∷ s.keys; rest = w } in
      let found : find (has_triple later.triple) kept.keys ≡ some row =
        rw (same, same_triple_refl params.triple) refl in
      (
        execute-threw params handler s free ran
            ∙ ap (λ t. (err (handler_threw e), t))
                (released params handler s params.delete_succeeds w free),
        execute-found later other kept found
            ∙ ap (λ r. (r, kept))
                (replay_claimed hash_body params (hash_body later.request_body) body),
      )
