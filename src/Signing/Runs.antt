-- ===== src/Signing/Runs.antt =====
-- Any sequence of calls of `PolicyEnforcingSigningService`, and what it can have signed.
use crypto_payment.Prelude.{String, Option, List, [], ◌∷◌, All, refl}
use crypto_payment.Prelude.Effect.{Keeps}
use crypto_payment.Signing.Policy.{SigningRequest, SigningPolicy}
use crypto_payment.Signing.Service.{Signing, Backend, submit, approve, reject}
use crypto_payment.Signing.Authorised.{IsAuthorised, WithinWindow, nothing_signed, IsSafe}
use crypto_payment.Signing.Safety.{submit-Safe, approve-Safe, reject-Safe}

-- A call, with the backend as it answers then.
pub data Call : Type 0 where
  submit_call : Backend → SigningRequest → Call
  approve_call : Backend → String → String → Call
  reject_call : String → String → Option String → Call

-- A caller sees an error and goes on with the next call.
unfoldable pub after : SigningPolicy → Call → Signing → Signing
after policy (submit_call sign request) s = (submit policy sign request s).1
after policy (approve_call sign id approver) s = (approve policy sign id approver s).1
after policy (reject_call id actor reason) s = (reject id actor reason s).1

unfoldable pub run : SigningPolicy → List Call → Signing → Signing
run policy [] s = s
run policy (call ∷ calls) s = run policy calls (after policy call s)

abbrev pub no_requests : Signing
no_requests = record { approvals = []; spends = []; audit_trail = []; signatures = [] }

after-IsSafe :
    (policy : SigningPolicy) (call : Call) (s : Signing)
    → IsSafe policy s
    → IsSafe policy (after policy call s)
unfolding after Keeps
after-IsSafe policy (submit_call sign request) s safe = submit-Safe policy sign request s safe
after-IsSafe policy (approve_call sign id approver) s safe =
    approve-Safe policy sign id approver s safe
after-IsSafe policy (reject_call id actor reason) s safe = reject-Safe policy id actor reason s safe

run-IsSafe :
    (policy : SigningPolicy) (calls : List Call) (s : Signing)
    → IsSafe policy s
    → IsSafe policy (run policy calls s)
unfolding run
run-IsSafe policy [] s safe = safe
run-IsSafe policy (call ∷ calls) s safe =
    run-IsSafe policy calls (after policy call s) (after-IsSafe policy call s safe)

-- Whatever calls are made, in any order and with any answers of the backend, everything signed went
-- to an allowed destination, within the ceiling for one transaction; where the policy asks for two
-- approvals or more, that many people approved it, none of them twice and none of them the requester;
-- and each amount fitted, with what was signed before it in its window, under the window's ceiling.
pub signed_within_policy :
    (policy : SigningPolicy) (calls : List Call)
    → All (IsAuthorised policy) (run policy calls no_requests).signatures
      × WithinWindow policy (run policy calls no_requests).signatures
signed_within_policy policy calls =
    let safe = run-IsSafe policy calls no_requests (tt, tt, nothing_signed, refl) in
    (safe.1, safe.2)
