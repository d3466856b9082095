-- ===== src/Prelude/Every.antt =====
-- What holds of every element of a list, through the functions on lists.
use Prim.Native.Nat.{ℕ, zero, suc}
use mathlib.Core.Path.{◌≡◌, subst}
use mathlib.Core.Logic.{inl, inr}
use mathlib.Core.Bool.{Bool, true}
use mathlib.Core.List.{List, [], ◌∷◌}
use mathlib.Core.Option.{some}
use crypto_payment.Prelude.Tests.{Bool-cases}
use crypto_payment.Prelude.Lists.{All, find, filter, take, update_where}

module _ {ℓ} {A : Type 0} (P : A → Type ℓ) where
  pub All-find :
      (test : A → Bool) (xs : List A) {a : A}
      → find test xs ≡ some a
      → All P xs
      → P a × (test a ≡ true)
  All-find test [] found ps = cc found
  All-find test (x ∷ xs) {a} found (p, ps) = elim (Bool-cases (test x)) [
    | inl h ↦
        let here : x ≡ a = cc (rw h at found) in subst (λ y. P y × (test y ≡ true)) here (p, h)
    | inr h ↦ All-find test xs (rw h at found) ps
  ]

  pub All-filter :
      (test : A → Bool) (xs : List A) → All P xs → All (λ x. P x × (test x ≡ true)) (filter test xs)
  All-filter test [] ps = tt
  All-filter test (x ∷ xs) (p, ps) = elim (Bool-cases (test x)) [
    | inl h ↦ rw h ((p, h), All-filter test xs ps)
    | inr h ↦ rw h (All-filter test xs ps)
  ]

  pub All-take : (n : ℕ) (xs : List A) → All P xs → All P (take n xs)
  All-take zero xs ps = tt
  All-take (suc n) [] ps = tt
  All-take (suc n) (x ∷ xs) (p, ps) = (p, All-take n xs ps)

  pub All-update_where :
      (test : A → Bool) (f : A → A)
      → ((x : A) → P x → P (f x))
      → (xs : List A) → All P xs
      → All P (update_where test f xs)
  All-update_where test f keeps [] ps = tt
  All-update_where test f keeps (x ∷ xs) (p, ps) = elim (Bool-cases (test x)) [
    | inl h ↦ rw h (keeps x p, All-update_where test f keeps xs ps)
    | inr h ↦ rw h (p, All-update_where test f keeps xs ps)
  ]

pub All-map {ℓ κ} :
    {A : Type 0} (P : A → Type ℓ) (Q : A → Type κ)
    → ((x : A) → P x → Q x)
    → (xs : List A) → All P xs
    → All Q xs
All-map P Q f [] ps = tt
All-map P Q f (x ∷ xs) (p, ps) = (f x p, All-map P Q f xs ps)
