-- ===== src/Signing/Authorised.antt =====
-- What the policy promises of a signature, for packages/signing/src/policy-signing-service.ts.
use crypto_payment.Prelude.{
  ◌≤◌, String, Bool, true, false, some, List, [], ◌∷◌, ◌++◌, map, ok, length, any, str_eq, All, ◌≡◌,
  refl, sym, ap, eq_iff, ◌⊎◌, inl, inr, Bool-cases, ltb→ge,
}
use crypto_payment.Prelude.Int.{◌+ℤ◌, ◌≤ℤ◌, ltb_ℤ}
use crypto_payment.Signing.Policy.{
  SigningRequest, SigningPolicy, PendingSigningRequest, is_listed, window_total, save_entry,
  same_request, get_entry, assert_within_ceilings, SpendEntry,
}
use crypto_payment.Signing.Service.{Signature, Signing, spend_of}

-- Approvers who differ pairwise.
abbrev pub AllDistinct : List String → Type 0
AllDistinct [] = Unit
AllDistinct (a ∷ approvals) = (any (str_eq a) approvals ≡ false) × AllDistinct approvals

-- Nobody approved twice, and the requester did not approve.
abbrev pub IsIndependent : SigningRequest → List String → Type 0
IsIndependent request approvals =
    AllDistinct approvals × (any (str_eq request.requested_by) approvals ≡ false)

-- Allowed as a destination and within the ceiling for one transaction; and where the policy asks for
-- more than one approval, enough people approved, none of them twice and none of them the requester.
abbrev pub IsAuthorised : SigningPolicy → Signature → Type 0
IsAuthorised policy signature =
    (is_listed policy signature.request.to_address ≡ true)
    × (signature.request.amount ≤ℤ policy.max_amount_per_tx)
    × ((policy.required_approvals ≤ 1)
        ⊎ (IsIndependent signature.request signature.approvals
            × (policy.required_approvals ≤ length signature.approvals)))

abbrev pub spends_of : List Signature → List SpendEntry
spends_of signatures = map (λ (g : Signature). spend_of g.request) signatures

-- In the order of signing, each amount and what was signed before it in its window stay within the
-- ceiling of the window.
pub data WithinWindow (policy : SigningPolicy) : List Signature → Type 0 where
  nothing_signed : WithinWindow policy []
  one_more :
      (signatures : List Signature) (g : Signature)
      → WithinWindow policy signatures
      → (window_total g.request.merchant_id g.request.network policy.window_seconds
            g.request.requested_at
            (spends_of signatures)
          +ℤ g.request.amount)
        ≤ℤ policy.max_amount_per_window
      → WithinWindow policy (signatures ++ (g ∷ []))

-- What holds of every entry of the approval store.
abbrev pub IsVetted : SigningPolicy → PendingSigningRequest → Type 0
IsVetted policy entry =
    (is_listed policy entry.request.to_address ≡ true)
    × ((policy.required_approvals ≤ 1) ⊎ IsIndependent entry.request entry.approvals)

abbrev pub IsSafe : SigningPolicy → Signing → Type 0
IsSafe policy s =
    All (IsVetted policy) s.approvals
    × All (IsAuthorised policy) s.signatures
    × WithinWindow policy s.signatures
    × (s.spends ≡ spends_of s.signatures)

pub All-save {ℓ} :
    (P : PendingSigningRequest → Type ℓ) (e : PendingSigningRequest)
    (entries : List PendingSigningRequest)
    → P e
    → All P entries
    → All P (save_entry e entries)
unfolding save_entry
All-save P e [] p ps = (p, tt)
All-save P e (old ∷ entries) p ps = elim (Bool-cases (same_request e.request.id old)) [
  | inl h ↦ rw h (p, ps.1)
  | inr h ↦ rw h (ps.0, All-save P e entries p ps.1)
]

pub All-find {ℓ} :
    (P : PendingSigningRequest → Type ℓ) (id : String) (entries : List PendingSigningRequest)
    {e : PendingSigningRequest}
    → get_entry id entries ≡ some e
    → All P entries
    → P e
All-find P id [] found ps = cc found
All-find P id (old ∷ entries) {e} found ps = elim (Bool-cases (same_request id old)) [
  | inl h ↦ let here : old ≡ e = cc (rw h at found) in rw (← here) ps.0
  | inr h ↦ All-find P id entries (rw h at found) ps.1
]

any-snoc :
    (test : String → Bool) (a : String) (approvals : List String)
    → any test approvals ≡ false
    → test a ≡ false
    → any test (approvals ++ (a ∷ [])) ≡ false
any-snoc test a [] none_yet new = rw new refl
any-snoc test a (b ∷ approvals) none_yet new = elim (Bool-cases (test b)) [
  | inl h ↦ cc (rw h at none_yet)
  | inr h ↦ rw h (any-snoc test a approvals (rw h at none_yet) new)
]

str_eq_comm : (a b : String) → str_eq a b ≡ false → str_eq b a ≡ false
str_eq_comm a b h = elim (Bool-cases (str_eq b a)) [
  | inl same ↦ cc (h, (eq_iff a b).1 (sym ((eq_iff b a).0 same)))
  | inr differ ↦ differ
]

distinct-snoc :
    (a : String) (approvals : List String)
    → any (str_eq a) approvals ≡ false
    → AllDistinct approvals
    → AllDistinct (approvals ++ (a ∷ []))
distinct-snoc a [] new apart = (refl, tt)
distinct-snoc a (b ∷ approvals) new apart = elim (Bool-cases (str_eq a b)) [
  | inl h ↦ cc (rw h at new)
  | inr h ↦ (
    any-snoc (str_eq b) a approvals apart.0 (str_eq_comm a b h),
    distinct-snoc a approvals (rw h at new) apart.1,
  )
]

-- One more approver, who is not the requester and has not approved, keeps the approvers apart.
pub IsIndependent-snoc :
    (request : SigningRequest) (a : String) (approvals : List String)
    → str_eq request.requested_by a ≡ false
    → any (str_eq a) approvals ≡ false
    → IsIndependent request approvals
    → IsIndependent request (approvals ++ (a ∷ []))
IsIndependent-snoc request a approvals other new apart =
    (distinct-snoc a approvals new apart.0, any-snoc _ a approvals apart.1 other)

pub spends-snoc :
    (gs : List Signature) (g : Signature)
    → spends_of (gs ++ (g ∷ [])) ≡ spends_of gs ++ (spend_of g.request ∷ [])
spends-snoc [] g = refl
spends-snoc (h ∷ gs) g = ap (λ es. spend_of h.request ∷ es) (spends-snoc gs g)

pub ceilings :
    (policy : SigningPolicy) (spends : List SpendEntry) (request : SigningRequest)
    → assert_within_ceilings policy spends request ≡ ok tt
    → (request.amount ≤ℤ policy.max_amount_per_tx)
      × ((window_total request.merchant_id request.network policy.window_seconds
              request.requested_at spends
            +ℤ request.amount)
          ≤ℤ policy.max_amount_per_window)
unfolding assert_within_ceilings
ceilings policy spends request h =
    let total =
      window_total request.merchant_id request.network policy.window_seconds request.requested_at
        spends in
    elim (Bool-cases (ltb_ℤ policy.max_amount_per_tx request.amount)) [
      | inl over ↦ cc (rw over at h)
      | inr within ↦
          elim (Bool-cases (ltb_ℤ policy.max_amount_per_window (total +ℤ request.amount))) [
            | inl over ↦ cc (rw (within, over) at h)
            | inr room ↦ (ltb→ge _ _ within, ltb→ge _ _ room)
          ]
    ]
