-- ===== src/Signing/Safety.antt =====
-- Nothing is signed outside the policy, for packages/signing/src/policy-signing-service.ts.
use crypto_payment.Prelude.{
  ◌≤◌, String, true, Option, some, List, [], ◌∷◌, ◌++◌, ok, err, length, any, Result, Result-cases,
  str_eq, All-append, ◌≡◌, refl, sym, ap, subst, ◌∙◌, ◌⊎◌, inl, inr, Bool-cases, if◌then◌else◌,
  leb→le, leb, Option-cases,
}
use crypto_payment.Prelude.Effect.{Eff, Keeps, >>=-ok, >>=-err, ◌>>=◌, ◌>>◌, lift, on_throw}
use crypto_payment.Signing.Policy.{
  SigningRequest, SigningPolicy, PendingSigningRequest, SigningError, SigningRequestStatus,
  pending_approval, signed, rejected, is_listed, get_entry, assert_within_ceilings,
  assert_destination_allowed, submitted, approved_by, validation_failed, request_already_decided,
}
use crypto_payment.Signing.Service.{
  Signature, Signing, Backend, spend_of, audited, record_signed, finalize_and_sign, checked,
  validate, with_entry, new_entry, hold, submit, undecided, add_approval, approve_entry, approve,
  reject, reject_entry, rejection,
}
use crypto_payment.Signing.Authorised.{
  IsIndependent, IsAuthorised, one_more, IsVetted, IsSafe, All-save, All-find, IsIndependent-snoc,
  spends-snoc, ceilings,
}

pending_same :
    (id : String) (s : Signing) (found e : PendingSigningRequest)
    → get_entry id s.approvals ≡ some found
    → undecided id s ≡ ok e
    → found ≡ e
unfolding undecided
pending_same id s found e h k = by_status found.status refl (rw (h, undecided) at k)
  where
    by_status :
        (status : SigningRequestStatus)
        → found.status ≡ status
        → elim found.status [
          | pending_approval ↦ ok found
          | decided ↦ err (request_already_decided id decided)
        ]
          ≡ ok e
        → found ≡ e
    by_status pending_approval e' k = cc (rw e' at k)
    by_status signed e' k = cc (rw e' at k)
    by_status rejected e' k = cc (rw e' at k)

module _ (policy : SigningPolicy) where
  abbrev Safe : Signing → Type 0
  Safe = IsSafe policy

  with_entry-Safe :
      (e : PendingSigningRequest) (s : Signing) → IsVetted policy e → Safe s → Safe (with_entry e s)
  with_entry-Safe e s vetted (entries, authorised, window, spends) =
      (All-save (IsVetted policy) e s.approvals vetted entries, authorised, window, spends)

  abbrev Quorum : Signature → Type 0
  Quorum g =
      (policy.required_approvals ≤ 1)
      ⊎ (IsIndependent g.request g.approvals × (policy.required_approvals ≤ length g.approvals))

  record_signed-Safe :
      (request : SigningRequest) (approvals : List String) (s : Signing)
      → is_listed policy request.to_address ≡ true
      → Quorum (record { request = request; approvals = approvals })
      → assert_within_ceilings policy s.spends request ≡ ok tt
      → Safe s
      → Safe (record_signed request approvals s)
  unfolding record_signed
  record_signed-Safe request approvals s listed quorum within (vetted, authorised, window, spends) =
      let g : Signature = record { request = request; approvals = approvals } in
      let (tx, room) = ceilings policy s.spends request within in
      (
        All-save (IsVetted policy) _ s.approvals
            (listed, elim quorum [ inl one ↦ inl one | inr (apart, enough) ↦ inr apart ]) vetted,
        All-append (IsAuthorised policy) s.signatures (g ∷ []) authorised
            ((listed, tx, quorum), tt),
        one_more s.signatures g window (rw (← spends) room),
        ap (λ es. es ++ (spend_of request ∷ [])) spends ∙ sym (spends-snoc s.signatures g),
      )

  finalize-Safe :
      (sign : Backend) (request : SigningRequest) (approvals : List String) (s : Signing)
      → is_listed policy request.to_address ≡ true
      → Quorum (record { request = request; approvals = approvals })
      → assert_within_ceilings policy s.spends request ≡ ok tt
      → Safe s
      → Safe (finalize_and_sign sign request approvals s).1
  unfolding finalize_and_sign
  finalize-Safe sign request approvals s listed quorum within safe =
      elim (Result-cases (sign request)) [
        | inl (tx, e) ↦
            rw (e, finalize_and_sign)
              (record_signed-Safe request approvals s listed quorum within safe)
        | inr (x, e) ↦ rw (e, finalize_and_sign) safe
      ]

  validated :
      (request : SigningRequest) (s : Signing)
      → validate policy request s ≡ ok tt
      → (is_listed policy request.to_address ≡ true)
        × (assert_within_ceilings policy s.spends request ≡ ok tt)
  unfolding assert_destination_allowed
  validated request s h = elim (Bool-cases (is_listed policy request.to_address)) [
    | inl listed ↦ (listed, rw listed at h)
    | inr other ↦ cc (rw other at h)
  ]

  -- What follows a check may use that the check passed.
  check_then-Safe :
      {A : Type 0} (id actor : String) (test : Signing → Result SigningError (Unit {0}))
      (rest : Eff Signing SigningError A) (s : Signing)
      → (test s ≡ ok tt → Safe (rest s).1)
      → Safe s
      → Safe ((checked id actor test >> rest) s).1
  unfolding checked
  check_then-Safe id actor test rest s next safe = elim (Result-cases (test s)) [
    | inl (u, e) ↦
        let passes : checked id actor test s ≡ (ok tt, s) = rw (e, on_throw) in
        subst (λ r. Safe r.1) (sym (>>=-ok (checked id actor test) (λ _. rest) s passes)) (next e)
    | inr (x, e) ↦
        let fails : checked id actor test s ≡ (err x, audited id validation_failed actor s) =
          rw (e, on_throw) in
        subst (λ r. Safe r.1) (sym (>>=-err (checked id actor test) (λ _. rest) s fails)) safe
  ]

  pub submit-Safe :
      (sign : Backend) (request : SigningRequest) → Keeps Safe (submit policy sign request)
  unfolding submit hold Keeps
  submit-Safe sign request s safe =
      let t = audited request.id submitted request.requested_by s in
      check_then-Safe request.id request.requested_by (validate policy request)
        (if leb policy.required_approvals 1
          then finalize_and_sign sign request (request.requested_by ∷ [])
          else hold (new_entry request))
        t
        (λ passed.
          let (listed, within) = validated request t passed in
          elim (Bool-cases (leb policy.required_approvals 1)) [
            | inl one ↦ rw one (
                finalize-Safe sign request (request.requested_by ∷ []) t listed
                  (inl (leb→le _ _ one)) within safe)
            | inr more ↦
                rw more (with_entry-Safe (new_entry request) t (listed, inr (tt, refl)) safe)
          ])
        safe

  add_approval-Safe :
      (sign : Backend) (entry : PendingSigningRequest) (approvals : List String) (approver : String)
      → IsVetted policy (record entry { approvals = approvals })
      → Keeps Safe (add_approval policy sign entry approvals approver)
  unfolding add_approval hold Keeps
  add_approval-Safe sign entry approvals approver (listed, apart) s safe =
      let t = audited entry.request.id approved_by approver s in
      let within = λ (s : Signing). assert_within_ceilings policy s.spends entry.request in
      elim (Bool-cases (leb policy.required_approvals (length approvals))) [
        | inr fewer ↦
            rw fewer
              (with_entry-Safe (record entry { approvals = approvals }) t (listed, apart) safe)
        | inl enough ↦ rw enough (
            check_then-Safe entry.request.id approver within
              (finalize_and_sign sign entry.request approvals) t
              (λ passed.
                finalize-Safe sign entry.request approvals t listed
                  (elim apart [ inl one ↦ inl one | inr a ↦ inr (a, leb→le _ _ enough) ]) passed
                  safe)
              safe)
      ]

  approve_entry-Safe :
      (sign : Backend) (approver : String) (entry : PendingSigningRequest)
      → IsVetted policy entry
      → Keeps Safe (approve_entry policy sign approver entry)
  unfolding approve_entry Keeps
  approve_entry-Safe sign approver entry (listed, apart) s safe =
      elim (Bool-cases (str_eq entry.request.requested_by approver)) [
        | inl self ↦ rw self safe
        | inr other ↦ elim (Bool-cases (any (str_eq approver) entry.approvals)) [
          | inl again ↦ rw (other, again) safe
          | inr new ↦
              rw (other, new)
                (add_approval-Safe sign entry _ approver
                  (
                    listed,
                    elim apart [
                      | inl one ↦ inl one
                      | inr a ↦
                          inr
                            (IsIndependent-snoc entry.request approver entry.approvals other new a)
                    ],
                  )
                  s safe)
        ]
      ]

  undecided-IsVetted :
      (id : String) (s : Signing) (e : PendingSigningRequest)
      → Safe s
      → undecided id s ≡ ok e
      → IsVetted policy e
  unfolding undecided
  undecided-IsVetted id s e safe h = elim (Option-cases (get_entry id s.approvals)) [
    | inl none_found ↦ cc (rw (none_found, undecided) at h)
    | inr (found, e') ↦
        rw (← pending_same id s found e e' h) (All-find (IsVetted policy) id s.approvals e' safe.0)
  ]

  -- A decision is made on an entry that was vetted.
  decide-Safe :
      {A : Type 0} (id : String) (decide : PendingSigningRequest → Eff Signing SigningError A)
      → ((e : PendingSigningRequest) → IsVetted policy e → Keeps Safe (decide e))
      → Keeps Safe (lift (undecided id) >>= decide)
  unfolding Keeps
  decide-Safe id decide keeps s safe = elim (Result-cases (undecided id s)) [
    | inl (e, h) ↦
        let found : lift (undecided id) s ≡ (ok e, s) = ap (λ r. (r, s)) h in
        subst (λ r. Safe r.1) (sym (>>=-ok (lift (undecided id)) decide s found))
          (keeps e (undecided-IsVetted id s e safe h) s safe)
    | inr (x, h) ↦
        let refused : lift (undecided id) s ≡ (err x, s) = ap (λ r. (r, s)) h in
        subst (λ r. Safe r.1) (sym (>>=-err (lift (undecided id)) decide s refused)) safe
  ]

  pub approve-Safe :
      (sign : Backend) (id approver : String) → Keeps Safe (approve policy sign id approver)
  unfolding approve
  approve-Safe sign id approver =
      decide-Safe id (approve_entry policy sign approver) (approve_entry-Safe sign approver)

  pub reject-Safe :
      (id actor : String) (reason : Option String) → Keeps Safe (reject id actor reason)
  unfolding reject reject_entry Keeps
  reject-Safe id actor reason =
      decide-Safe id (reject_entry actor reason)
        (λ e vetted s safe. with_entry-Safe (rejection e actor reason) s vetted safe)
