-- ===== src/Webhooks/Rows.antt =====
-- What every row of the outbox satisfies, for packages/webhooks/src/dispatcher.ts.
use crypto_payment.Prelude.{ℕ, ◌≤◌, ◌<◌, Bool, true, List, [], ◌∷◌, All, ◌≡◌, inl, inr, Bool-cases}
use crypto_payment.Webhooks.Outbox.{
  DeliveryStatus, failed, Endpoint, Delivery, Outbox, update_first,
}

-- A failed attempt is tried again only with budget left.
abbrev pub LeavesRoom : DeliveryStatus → ℕ → ℕ → Type 0
LeavesRoom failed attempt budget = attempt < budget
LeavesRoom _ attempt budget = Unit

-- `budget` gives the attempts of each endpoint.
module _ (budget : ℕ → ℕ) where
  abbrev pub IsPlanned : Endpoint → Type 0
  IsPlanned e = (e.max_attempts ≡ budget e.id) × (1 ≤ e.max_attempts)

  abbrev pub IsWithinBudget : Delivery → Type 0
  IsWithinBudget d =
      (1 ≤ d.attempt)
      × (d.attempt ≤ budget d.endpoint_id)
      × LeavesRoom d.status d.attempt (budget d.endpoint_id)

  -- `endpoint_of` and `attempt_of` give the endpoint and the attempt of each id in use.
  module _ (endpoint_of attempt_of : ℕ → ℕ) where
    abbrev pub IsSoundRow : ℕ → Delivery → Type 0
    IsSoundRow next_id d =
        IsWithinBudget d
        × (d.id < next_id)
        × (d.endpoint_id ≡ endpoint_of d.id)
        × (d.attempt ≡ attempt_of d.id)

    abbrev pub IsSoundBox : Outbox → Type 0
    IsSoundBox s = All IsPlanned s.endpoints × All (IsSoundRow s.next_id) s.deliveries

  abbrev pub IsSound : Outbox → Type 0
  IsSound s = (endpoint_of : ℕ → ℕ) × (attempt_of : ℕ → ℕ) × IsSoundBox endpoint_of attempt_of s

module _ {ℓ} {A : Type 0} (P : A → Type ℓ) where
  pub All-update_first :
      (test : A → Bool) (f : A → A)
      → ((x : A) → test x ≡ true → P x → P (f x))
      → (xs : List A) → All P xs
      → All P (update_first test f xs)
  unfolding update_first
  All-update_first test f keeps [] ps = tt
  All-update_first test f keeps (x ∷ xs) (p, ps) = elim (Bool-cases (test x)) [
    | inl h ↦ rw h (keeps x h p, ps)
    | inr h ↦ rw h (p, All-update_first test f keeps xs ps)
  ]
