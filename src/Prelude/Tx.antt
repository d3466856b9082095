-- ===== src/Prelude/Tx.antt =====
-- A database transaction: it reads and writes the store `S`, and throws `E`. A throw rolls back, so
-- no store comes with an error.
use mathlib.Core.Bool.{Bool, true, false}
use mathlib.Core.Option.{Option, none, some}
use mathlib.Core.List.{List, [], ◌∷◌}
use mathlib.Core.Path.{◌≡◌, refl}
use mathlib.Core.Logic.{inl, inr}
use crypto_payment.Prelude.Throwing.{Result, ok, err, Result-cases}

abbrev pub Tx : Type 0 → Type 0 → Type 0 → Type 0
Tx S E A = S → Result E (A × S)

module _ {S E A : Type 0} where
  abbrev pub pure : A → Tx S E A
  pure a s = ok (a, s)

  abbrev pub throw : E → Tx S E A
  throw e s = err e

  abbrev pub lift : Result E A → Tx S E A
  lift (ok a) s = ok (a, s)
  lift (err e) s = err e

  abbrev pub gets : (S → A) → Tx S E A
  gets f s = ok (f s, s)

  -- `findUniqueOrThrow`
  abbrev pub or_throw : Option A → E → Tx S E A
  or_throw none e s = err e
  or_throw (some a) e s = ok (a, s)

infixl 5 ◌>>=◌ ◌>>◌
abbrev pub ◌>>=◌ : {S E A B : Type 0} → Tx S E A → (A → Tx S E B) → Tx S E B
◌>>=◌ m f s = elim (m s) [ ok (a, s') ↦ f a s' | err e ↦ err e ]

abbrev pub ◌>>◌ : {S E A : Type 0} → Tx S E (Unit {0}) → Tx S E A → Tx S E A
m >> k = m >>= λ _. k

abbrev pub modify : {S E : Type 0} → (S → S) → Tx S E (Unit {0})
modify f s = ok (tt, f s)

abbrev pub guard : {S E : Type 0} → Bool → E → Tx S E (Unit {0})
guard true e s = ok (tt, s)
guard false e s = err e

-- `if (condition) await action`
abbrev pub when : {S E : Type 0} → Bool → Tx S E (Unit {0}) → Tx S E (Unit {0})
when true action s = action s
when false action s = ok (tt, s)

-- `for (const x of xs) await body(x)`
unfoldable pub for_each : {S E A : Type 0} → List A → (A → Tx S E (Unit {0})) → Tx S E (Unit {0})
for_each [] body s = ok (tt, s)
for_each (x ∷ xs) body s = (body x >> for_each xs body) s

-- A loop whose every round is a transaction of its own: a round that throws ends the loop, and the
-- rounds before it stay committed.
unfoldable pub each_in_transaction :
    {S E A : Type 0} → List A → (A → Tx S E (Unit {0})) → S → S × Option E
each_in_transaction [] body s = (s, none)
each_in_transaction (x ∷ xs) body s = elim (body x s) [
  | ok (u, s') ↦ each_in_transaction xs body s'
  | err e ↦ (s, some e)
]

-- Inversion of a transaction that succeeds.
pub >>=-eq-ok :
    {S E A B : Type 0} (m : Tx S E A) (f : A → Tx S E B) (s : S) {b : B} {s' : S}
    → (m >>= f) s ≡ ok (b, s')
    → (a : A) × (t : S) × (m s ≡ ok (a, t)) × (f a t ≡ ok (b, s'))
>>=-eq-ok {S = S} {E = E} {A = A} m f s {b} {s'} h = go (m s) refl h
  where
    go :
        (r : Result E (A × S))
        → m s ≡ r
        → elim r [ ok (a, t) ↦ f a t | err e ↦ err e ] ≡ ok (b, s')
        → (a : A) × (t : S) × (m s ≡ ok (a, t)) × (f a t ≡ ok (b, s'))
    go (ok (a, t)) e k = (a, t, e, k)
    go (err e') e k = cc k

-- A rule for loops: what every round keeps, the loop keeps.
pub for_each_keeps {ℓ} :
    {S E A : Type 0} (P : S → Type ℓ) (body : A → Tx S E (Unit {0}))
    → ((x : A) (s s' : S) → body x s ≡ ok (tt, s') → P s → P s')
    → (xs : List A) (s s' : S) → for_each xs body s ≡ ok (tt, s')
    → P s
    → P s'
unfolding for_each
for_each_keeps P body keeps [] s s' h p = let e : s ≡ s' = cc h in rw (← e) p
for_each_keeps P body keeps (x ∷ xs) s s' h p =
    let (u, t, first, rest) = >>=-eq-ok (body x) (λ _. for_each xs body) s h in
    for_each_keeps P body keeps xs t s' rest (keeps x s t first p)

pub each_in_transaction_keeps {ℓ} :
    {S E A : Type 0} (P : S → Type ℓ) (body : A → Tx S E (Unit {0}))
    → ((x : A) (s s' : S) → body x s ≡ ok (tt, s') → P s → P s')
    → (xs : List A) (s : S) → P s
    → P (each_in_transaction xs body s).0
unfolding each_in_transaction
each_in_transaction_keeps P body keeps [] s p = p
each_in_transaction_keeps P body keeps (x ∷ xs) s p = elim (Result-cases (body x s)) [
  | inl ((u, s'), e) ↦
      rw (e, each_in_transaction) (each_in_transaction_keeps P body keeps xs s' (keeps x s s' e p))
  | inr (e', e) ↦ rw (e, each_in_transaction) p
]
