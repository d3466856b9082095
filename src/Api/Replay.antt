-- ===== src/Api/Replay.antt =====
-- apps/api/src/common/idempotency.service.ts: what a request with a key that was used gets.
use crypto_payment.Prelude.{
  ℕ, String, true, none, some, ◌∷◌, ok, err, find, str_eq, eq_iff, if◌then◌else◌, Bool-cases,
  Option-cases, Result-cases, ◌≡◌, refl, sym, ap, ◌∙◌, inl, inr,
}
use crypto_payment.Prelude.Effect.{Eff}
use crypto_payment.Api.Idempotency.{
  KeyTriple, KeyRow, Params, Response, Outcome, idempotency_key_reused, Service, has_triple,
  replay_stored, first_outcome, execute,
}
use crypto_payment.Api.FirstCall.{
  same_triple_refl, execute-found, completed_row, execute-ran, execute-threw,
}

-- What a later call with the same key and the same body gets: the body is the one that the column
-- gives back, unless it already was.
unfoldable pub repeated : {A : Type 0} → (A → A) → Outcome A → Outcome A
repeated from_column o = record {
  status = o.status;
  body =
      if o.replayed then o.body else (elim o.body [ none ↦ none | some b ↦ some (from_column b) ]);
  replayed = true;
}

module _ {A E : Type 0} (request_hash : String) (row : KeyRow A) where
  -- What the row is where it is replayed with success.
  replayed_row :
      {o : Outcome A}
      → replay_stored {E = E} request_hash row ≡ ok o
      → (row.request_hash ≡ request_hash)
        × ((at : ℕ) × (row.completed_at ≡ some at))
        × (o ≡ record { status = row.response_status; body = row.response_body; replayed = true })
  unfolding replay_stored
  replayed_row e = elim (Bool-cases (str_eq row.request_hash request_hash)) [
    | inl same ↦ elim (Option-cases row.completed_at) [
      | inl pending ↦ cc (rw (same, pending) at e)
      | inr (at, done) ↦
          ((eq_iff row.request_hash request_hash).0 same, (at, done), cc (rw (same, done) at e))
    ]
    | inr other ↦ cc (rw other at e)
  ]

  replay_completed :
      (other : String) {at : ℕ}
      → row.completed_at ≡ some at
      → row.request_hash ≡ request_hash
      → replay_stored {E = E} other row ≡ (
          if str_eq request_hash other
          then ok
              (record { status = row.response_status; body = row.response_body; replayed = true })
          else err idempotency_key_reused)
  unfolding replay_stored
  replay_completed other done same = elim (Bool-cases (str_eq request_hash other)) [
    | inl h ↦ rw (same, h, done) refl
    | inr h ↦ rw (same, h) refl
  ]

module _ {A W : Type 0} where
  -- The row that an execution which returned leaves under its key.
  abbrev Leaves : (A → A) → KeyTriple → String → Outcome A → Service A W → Type 0
  Leaves from_column t request_hash o s =
      (row : KeyRow A) × (find (has_triple t) s.keys ≡ some row)
      × (row.request_hash ≡ request_hash)
      × ((at : ℕ) × (row.completed_at ≡ some at))
      × (repeated from_column o
          ≡ record { status = row.response_status; body = row.response_body; replayed = true })

module _ {Body A W E : Type 0} (hash_body : Body → String) (from_column : A → A) where
  execute-Leaves :
      (params : Params Body) (handler : Eff W E (Response A)) (s : Service A W) {o : Outcome A}
      {t : Service A W}
      → execute hash_body from_column params handler s ≡ (ok o, t)
      → Leaves from_column params.triple (hash_body params.request_body) o t
  unfolding repeated
  execute-Leaves params handler s {o} {t} e =
      elim (Option-cases (find (has_triple params.triple) s.keys)) [
        | inr (row, found) ↦
            let ran = sym (execute-found hash_body from_column params handler s found) ∙ e in
            let (same, done, is) =
              replayed_row (hash_body params.request_body) row (ap (λ r. r.0) ran) in
            let state : s ≡ t = ap (λ r. r.1) ran in
            (row, rw (sym state) found, same, done, rw is refl)
        | inl free ↦ elim (Result-cases (handler s.rest).0) [
          | inl (response, h) ↦
              let ran =
                sym (
                  execute-ran hash_body from_column params handler s free
                    (ap (λ r. (r, (handler s.rest).1)) h))
                ∙ e in
              let state : record {
                keys = completed_row hash_body from_column params handler s response ∷ s.keys;
                rest = (handler s.rest).1;
              }
                  ≡ t =
                ap (λ r. r.1) ran in
              let is : first_outcome response ≡ o = cc (ap (λ r. r.0) ran) in
              (
                completed_row hash_body from_column params handler s response,
                rw (sym state) (rw (same_triple_refl params.triple) refl),
                refl,
                (params.completed, refl),
                rw (sym is) refl,
              )
          | inr (x, h) ↦
              let ran =
                sym (
                  execute-threw hash_body from_column params handler s free
                    (ap (λ r. (r, (handler s.rest).1)) h))
                ∙ e in
              cc (ap (λ r. r.0) ran)
        ]
      ]

  -- Once a call has returned, whether it ran its handler or replayed, every later call with the same
  -- key leaves the state as it is, whatever its handler would do: with a body of the same hash it gets
  -- the first response again, and with another body it is refused. No other call comes between.
  pub execute_again :
      (params later : Params Body) (handler other : Eff W E (Response A)) (s : Service A W)
      {o : Outcome A} {t : Service A W}
      → execute hash_body from_column params handler s ≡ (ok o, t)
      → later.triple ≡ params.triple
      → execute hash_body from_column later other t ≡ (
        (if str_eq (hash_body params.request_body) (hash_body later.request_body)
            then ok (repeated from_column o)
            else err idempotency_key_reused),
        t,
      )
  execute_again params later handler other s {o} {t} e same =
      let (row, found, hash, (at, done), is) = execute-Leaves params handler s e in
      let found_later : find (has_triple later.triple) t.keys ≡ some row = rw same found in
      execute-found hash_body from_column later other t found_later
      ∙ ap (λ r. (r, t))
          (rw is (
            replay_completed (hash_body params.request_body) row (hash_body later.request_body) done
              hash))
