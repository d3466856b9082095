-- ===== src/Signing/Policy.antt =====
-- packages/signing/src: types.ts, policy.ts, errors.ts and the in-memory stores of spend-tracker.ts,
-- approval-store.ts and audit-trail.ts. Times are milliseconds. An audit row keeps its type and its
-- actor; its time and its free-form detail are left out.
use crypto_payment.Prelude.{
  ℕ, String, Bool, ◌&&◌, Option, List, [], ◌∷◌, Result, require, any, filter, find, str_eq,
  if◌then◌else◌, ◌>>◌, not,
}
use crypto_payment.Prelude.Int.{ℤ, pos, ◌+ℤ◌, ◌-ℤ◌, ◌*ℤ◌, ltb_ℤ}
use crypto_payment.Payments.Confirmations.{codes, to_lower_case, same_codes}

pub record SigningRequest : Type 0 where
  pub id : String
  pub merchant_id : String
  pub network : String
  pub asset : String
  pub from_address : String
  pub to_address : String
  pub amount : ℤ
  pub requested_by : String
  pub requested_at : ℤ

pub record SignedTransaction : Type 0 where
  pub request_id : String
  pub raw_tx_hex : String
  pub signed_at : ℤ

-- `allowed_destinations` are the lowercased addresses.
pub record SigningPolicy : Type 0 where
  pub network : String
  pub allowed_destinations : List String
  pub max_amount_per_tx : ℤ
  pub max_amount_per_window : ℤ
  pub window_seconds : ℤ
  pub required_approvals : ℕ

pub data SigningRequestStatus : Type 0 where
  pending_approval signed rejected : SigningRequestStatus

pub record PendingSigningRequest : Type 0 where
  pub request : SigningRequest
  pub status : SigningRequestStatus
  pub approvals : List String
  pub rejected_by : Option String
  pub rejection_reason : Option String

pub data SigningError : Type 0 where
  destination_not_allowed amount_ceiling_exceeded self_approval : SigningError
  request_already_decided : String → SigningRequestStatus → SigningError
  unknown_signing_request : String → SigningError
  -- What the backend throws.
  backend_failed : String → SigningError

pub data AuditType : Type 0 where
  submitted approved_by rejected_by_actor signed_tx validation_failed sign_failed : AuditType

pub record AuditRow : Type 0 where
  pub request_id : String
  pub type : AuditType
  pub actor_id : String

pub record SpendEntry : Type 0 where
  pub merchant_id : String
  pub network : String
  pub amount : ℤ
  pub at : ℤ

-- `InMemorySpendTracker.windowTotal`
abbrev pub in_window : String → String → ℤ → SpendEntry → Bool
in_window merchant_id network cutoff entry =
    str_eq entry.merchant_id merchant_id && str_eq entry.network network && ltb_ℤ cutoff entry.at

unfoldable pub sum_spends : ℤ → List SpendEntry → ℤ
sum_spends sum [] = sum
sum_spends sum (entry ∷ entries) = sum_spends (sum +ℤ entry.amount) entries

unfoldable pub window_total : String → String → ℤ → ℤ → List SpendEntry → ℤ
window_total merchant_id network window_seconds as_of entries =
    let cutoff = as_of -ℤ window_seconds *ℤ pos 1000 in
    sum_spends (pos 0) (filter (in_window merchant_id network cutoff) entries)

abbrev pub same_request : String → PendingSigningRequest → Bool
same_request id entry = str_eq entry.request.id id

-- `InMemoryApprovalStore`: a map from the id of the request, so that saving overwrites.
unfoldable pub save_entry :
    PendingSigningRequest → List PendingSigningRequest → List PendingSigningRequest
save_entry entry [] = entry ∷ []
save_entry entry (old ∷ entries) =
    let rest = save_entry entry entries in
    if same_request entry.request.id old then entry ∷ entries else old ∷ rest

abbrev pub get_entry : String → List PendingSigningRequest → Option PendingSigningRequest
get_entry id entries = find (same_request id) entries

-- `allowedDestinations.has(address.toLowerCase())`
unfoldable pub is_listed : SigningPolicy → String → Bool
is_listed policy address =
    any (λ listed. same_codes (codes listed) (to_lower_case address)) policy.allowed_destinations

unfoldable pub assert_destination_allowed :
    SigningPolicy → SigningRequest → Result SigningError (Unit {0})
assert_destination_allowed policy request =
    require (is_listed policy request.to_address) destination_not_allowed

unfoldable pub assert_within_ceilings :
    SigningPolicy → List SpendEntry → SigningRequest → Result SigningError (Unit {0})
assert_within_ceilings policy spends request = do
  require (not (ltb_ℤ policy.max_amount_per_tx request.amount)) amount_ceiling_exceeded
  let total =
      window_total request.merchant_id request.network policy.window_seconds request.requested_at
        spends
  require (not (ltb_ℤ policy.max_amount_per_window (total +ℤ request.amount)))
      amount_ceiling_exceeded
