-- ===== src/Webhooks/Keys.antt =====
-- The unique key (event, endpoint, attempt) of the rows of `webhook_deliveries`.
use crypto_payment.Prelude.{
  ℕ, zero, suc, ◌≤◌, Bool, false, not, ◌&&◌, List, [], ◌∷◌, ◌++◌, any, filter, map, length, All,
  ◌==◌, ==_iff, ◌≡◌, ◌∙◌, refl, ap, inl, inr, Bool-cases, arith,
}
use crypto_payment.Webhooks.Outbox.{Delivery}

pub record Key : Type 0 where
  pub event_id : ℕ
  pub endpoint_id : ℕ
  pub attempt : ℕ

abbrev pub key_of : Delivery → Key
key_of d = record { event_id = d.event_id; endpoint_id = d.endpoint_id; attempt = d.attempt }

abbrev pub same_key : Key → Key → Bool
same_key k j = j.event_id == k.event_id && j.endpoint_id == k.endpoint_id && j.attempt == k.attempt

-- No two elements of a list are the same, by a test.
module _ {A : Type 0} (same : A → A → Bool) where
  abbrev pub IsDistinct : List A → Type 0
  IsDistinct [] = Unit
  IsDistinct (x ∷ xs) = (any (same x) xs ≡ false) × IsDistinct xs

  any-snoc :
      (p : A → Bool) (xs : List A) (y : A)
      → any p xs ≡ false
      → p y ≡ false
      → any p (xs ++ (y ∷ [])) ≡ false
  any-snoc p [] y h q = rw q refl
  any-snoc p (x ∷ xs) y h q = elim (Bool-cases (p x)) [
    | inl e ↦ cc (rw e at h)
    | inr e ↦ rw e (any-snoc p xs y (rw e at h) q)
  ]

  pub IsDistinct-snoc :
      (xs : List A) (y : A)
      → ((x : A) → same x y ≡ same y x)
      → any (same y) xs ≡ false
      → IsDistinct xs
      → IsDistinct (xs ++ (y ∷ []))
  IsDistinct-snoc [] y symmetric new distinct = (refl, tt)
  IsDistinct-snoc (x ∷ xs) y symmetric new (away, distinct) = elim (Bool-cases (same y x)) [
    | inl e ↦ cc (rw e at new)
    | inr e ↦ (
      any-snoc (same x) xs y away (symmetric x ∙ e),
      IsDistinct-snoc xs y symmetric (rw e at new) distinct,
    )
  ]

any-filter :
    {A : Type 0} (p test : A → Bool) (xs : List A)
    → any p xs ≡ false
    → any p (filter test xs) ≡ false
any-filter p test [] h = refl
any-filter p test (x ∷ xs) h = elim (Bool-cases (p x)) [
  | inl e ↦ cc (rw e at h)
  | inr e ↦ elim (Bool-cases (test x)) [
    | inl t ↦ rw (t, e) (any-filter p test xs (rw e at h))
    | inr t ↦ rw t (any-filter p test xs (rw e at h))
  ]
]

IsDistinct-filter :
    {A : Type 0} (same : A → A → Bool) (test : A → Bool) (xs : List A)
    → IsDistinct same xs
    → IsDistinct same (filter test xs)
IsDistinct-filter same test [] distinct = tt
IsDistinct-filter same test (x ∷ xs) (away, distinct) = elim (Bool-cases (test x)) [
  | inl t ↦ rw t (any-filter (same x) test xs away, IsDistinct-filter same test xs distinct)
  | inr t ↦ rw t (IsDistinct-filter same test xs distinct)
]

-- Distinct numbers from 1 to `n` are at most `n`.
abbrev others : ℕ → List ℕ → List ℕ
others v = filter (λ x. not (v == x))

others-all : (v : ℕ) (xs : List ℕ) → any (λ x. v == x) xs ≡ false → others v xs ≡ xs
others-all v [] h = refl
others-all v (x ∷ xs) h = elim (Bool-cases (v == x)) [
  | inl e ↦ cc (rw e at h)
  | inr e ↦ rw e (ap (λ ys. x ∷ ys) (others-all v xs (rw e at h)))
]

others-length : (v : ℕ) (xs : List ℕ) → IsDistinct ◌==◌ xs → length xs ≤ suc (length (others v xs))
others-length v [] distinct = omega arith
others-length v (x ∷ xs) (away, distinct) = elim (Bool-cases (v == x)) [
  | inl e ↦
      let same : v ≡ x = (==_iff v x).0 e in
      let kept : others v xs ≡ xs = others-all v xs (rw same away) in rw (e, kept) (omega arith)
  | inr e ↦ rw e (omega (arith, others-length v xs distinct))
]

others-below :
    (n : ℕ) (xs : List ℕ)
    → All (λ x. (1 ≤ x) × (x ≤ suc n)) xs
    → All (λ x. (1 ≤ x) × (x ≤ n)) (others (suc n) xs)
others-below n [] h = tt
others-below n (x ∷ xs) ((low, high), rest) = elim (Bool-cases (suc n == x)) [
  | inl e ↦ rw e (others-below n xs rest)
  | inr e ↦ rw e ((low, ground arith), others-below n xs rest)
]

pub distinct_bounded :
    (n : ℕ) (xs : List ℕ) → IsDistinct ◌==◌ xs → All (λ x. (1 ≤ x) × (x ≤ n)) xs → length xs ≤ n
distinct_bounded zero [] distinct h = omega arith
distinct_bounded zero (x ∷ xs) distinct ((low, high), rest) = omega (arith, low, high)
distinct_bounded (suc n) xs distinct h = omega (
  arith,
  others-length (suc n) xs distinct,
  distinct_bounded n (others (suc n) xs)
      (IsDistinct-filter ◌==◌ (λ x. not (suc n == x)) xs distinct) (others-below n xs h),
)

-- The rows of an event at an endpoint.
abbrev pub rows_of : ℕ → ℕ → List Delivery → List Delivery
rows_of event_id endpoint_id = filter (λ d. d.event_id == event_id && d.endpoint_id == endpoint_id)

abbrev pub attempts_of : List Delivery → List ℕ
attempts_of = map (λ d. d.attempt)
