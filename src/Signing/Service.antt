-- ===== src/Signing/Service.antt =====
-- packages/signing/src/policy-signing-service.ts: `PolicyEnforcingSigningService`. The signing backend
-- is a parameter, `sign`: each call may be given another one, so that it can fail and recover. The
-- calls that the source awaits run one after the other. `signatures` records what the backend has
-- signed, with the approvals it was signed on.
use crypto_payment.Prelude.{
  String, Option, none, some, List, [], ◌∷◌, ◌++◌, Result, ok, err, leb, any, str_eq, if◌then◌else◌,
  length,
}
use crypto_payment.Prelude.Throwing.{◌>>=◌ as and_then}
use crypto_payment.Prelude.Effect.{Eff, pure, lift, on_throw, modify, ◌>>=◌, ◌>>◌}
use crypto_payment.Signing.Policy.{
  SigningRequest, SignedTransaction, SigningPolicy, pending_approval, signed, rejected,
  PendingSigningRequest, SigningError, request_already_decided, self_approval,
  unknown_signing_request, AuditType, submitted, approved_by, rejected_by_actor, signed_tx,
  validation_failed, sign_failed, AuditRow, SpendEntry, save_entry, get_entry,
  assert_destination_allowed, assert_within_ceilings,
}

pub record Signature : Type 0 where
  pub request : SigningRequest
  pub approvals : List String

pub record Signing : Type 0 where
  pub approvals : List PendingSigningRequest
  pub spends : List SpendEntry
  pub audit_trail : List AuditRow
  pub signatures : List Signature

pub data SigningOutcome : Type 0 where
  transaction : SignedTransaction → SigningOutcome
  held : PendingSigningRequest → SigningOutcome

abbrev pub SigningIo : Type 0 → Type 0
SigningIo A = Eff Signing SigningError A

-- `SigningBackend.sign`
abbrev pub Backend : Type 0
Backend = SigningRequest → Result SigningError SignedTransaction

-- `audit`
abbrev pub audited : String → AuditType → String → Signing → Signing
audited request_id type actor_id s = record s {
  audit_trail =
      s.audit_trail ++ (record { request_id = request_id; type = type; actor_id = actor_id } ∷ []);
}

abbrev pub spend_of : SigningRequest → SpendEntry
spend_of request = record {
  merchant_id = request.merchant_id;
  network = request.network;
  amount = request.amount;
  at = request.requested_at;
}

-- What a signature writes: the spend, the decided request and the audit row.
unfoldable pub record_signed : SigningRequest → List String → Signing → Signing
record_signed request approvals s = audited request.id signed_tx request.requested_by (record s {
  spends = s.spends ++ (spend_of request ∷ []);
  approvals =
      save_entry
        (record {
          request = request;
          status = signed;
          approvals = approvals;
          rejected_by = none;
          rejection_reason = none;
        })
        s.approvals;
  signatures = s.signatures ++ (record { request = request; approvals = approvals } ∷ []);
})

unfoldable pub finalize_and_sign : Backend → SigningRequest → List String → SigningIo SigningOutcome
finalize_and_sign sign request approvals s = elim (sign request) [
  | ok tx ↦ (ok (transaction tx), record_signed request approvals s)
  | err e ↦ (err e, audited request.id sign_failed request.requested_by s)
]

-- A check that writes an audit row where it throws: `auditValidationFailure`.
unfoldable pub checked :
    String → String → (Signing → Result SigningError (Unit {0})) → SigningIo (Unit {0})
checked request_id actor_id test =
    on_throw (lift test) (audited request_id validation_failed actor_id)

abbrev pub validate : SigningPolicy → SigningRequest → Signing → Result SigningError (Unit {0})
validate policy request s =
    and_then (assert_destination_allowed policy request)
      (λ _. assert_within_ceilings policy s.spends request)

abbrev pub new_entry : SigningRequest → PendingSigningRequest
new_entry request = record {
  request = request;
  status = pending_approval;
  approvals = [];
  rejected_by = none;
  rejection_reason = none;
}

-- `approvals.save`
abbrev pub with_entry : PendingSigningRequest → Signing → Signing
with_entry entry s = record s { approvals = save_entry entry s.approvals }

unfoldable pub hold : PendingSigningRequest → SigningIo SigningOutcome
hold entry = do modify (with_entry entry); pure (held entry)

unfoldable pub submit : SigningPolicy → Backend → SigningRequest → SigningIo SigningOutcome
submit policy sign request = do
  modify (audited request.id submitted request.requested_by)
  checked request.id request.requested_by (validate policy request)
  (if leb policy.required_approvals 1
      then finalize_and_sign sign request (request.requested_by ∷ [])
      else hold (new_entry request))

-- The entry that `approve` and `reject` decide on.
unfoldable pub undecided : String → Signing → Result SigningError PendingSigningRequest
undecided request_id s = elim (get_entry request_id s.approvals) [
  | none ↦ err (unknown_signing_request request_id)
  | some entry ↦ elim entry.status [
    | pending_approval ↦ ok entry
    | decided ↦ err (request_already_decided request_id decided)
  ]
]

unfoldable pub add_approval :
    SigningPolicy
    → Backend
    → PendingSigningRequest
    → List String
    → String
    → SigningIo SigningOutcome
add_approval policy sign entry approvals approver_id = do
  modify (audited entry.request.id approved_by approver_id)
  (if leb policy.required_approvals (length approvals)
      then (do
        checked entry.request.id approver_id
            (λ s. assert_within_ceilings policy s.spends entry.request)
        finalize_and_sign sign entry.request approvals)
      else hold (record entry { approvals = approvals }))

unfoldable pub approve_entry :
    SigningPolicy → Backend → String → PendingSigningRequest → SigningIo SigningOutcome
approve_entry policy sign approver_id entry =
    if str_eq entry.request.requested_by approver_id
    then lift (λ _. err self_approval)
    else if any (str_eq approver_id) entry.approvals
    then pure (held entry)
    else add_approval policy sign entry (entry.approvals ++ (approver_id ∷ [])) approver_id

unfoldable pub approve : SigningPolicy → Backend → String → String → SigningIo SigningOutcome
approve policy sign request_id approver_id = do
  entry ← lift (undecided request_id)
  approve_entry policy sign approver_id entry

abbrev pub rejection : PendingSigningRequest → String → Option String → PendingSigningRequest
rejection entry actor_id reason = record entry {
  status = rejected;
  rejected_by = some actor_id;
  rejection_reason = reason;
}

unfoldable pub reject_entry :
    String → Option String → PendingSigningRequest → SigningIo PendingSigningRequest
reject_entry actor_id reason entry = do
  let updated = rejection entry actor_id reason
  modify (with_entry updated)
  modify (audited entry.request.id rejected_by_actor actor_id)
  pure updated

unfoldable pub reject : String → String → Option String → SigningIo PendingSigningRequest
reject request_id actor_id reason = do
  entry ← lift (undecided request_id)
  reject_entry actor_id reason entry
