-- ===== src/Prelude/Effect.antt =====
-- A computation that reads and writes a state `S` outside a database transaction: what it wrote before
-- a throw stays written.
use mathlib.Core.Bool.{Bool, true, false}
use mathlib.Core.List.{List, [], ◌∷◌}
use mathlib.Core.Path.{◌≡◌, ap, subst}
use crypto_payment.Prelude.Lists.{All}
use crypto_payment.Prelude.Tests.{if◌then◌else◌}
use mathlib.Core.Logic.{inl, inr}
use crypto_payment.Prelude.Throwing.{Result, ok, err, Result-cases}

abbrev pub Eff : Type 0 → Type 0 → Type 0 → Type 0
Eff S E A = S → Result E A × S

module _ {S E A : Type 0} where
  abbrev pub pure : A → Eff S E A
  pure a s = (ok a, s)

  abbrev pub gets : (S → A) → Eff S E A
  gets f s = (ok (f s), s)

  -- A test that reads the state and may throw.
  abbrev pub lift : (S → Result E A) → Eff S E A
  lift test s = (test s, s)

  -- `try { … } catch (error) { await handler; throw error }`
  abbrev pub on_throw : Eff S E A → (S → S) → Eff S E A
  on_throw m handler s =
      let r = m s in elim r.0 [ ok a ↦ (ok a, r.1) | err e ↦ (err e, handler r.1) ]

  -- `try { … } catch { handler }`
  abbrev pub on_error : Eff S E A → Eff S E A → Eff S E A
  on_error m handler s = let r = m s in elim r.0 [ ok a ↦ (ok a, r.1) | err e ↦ handler r.1 ]

infixl 5 ◌>>=◌ ◌>>◌
abbrev pub ◌>>=◌ : {S E A B : Type 0} → Eff S E A → (A → Eff S E B) → Eff S E B
◌>>=◌ m f s = let r = m s in elim r.0 [ ok a ↦ f a r.1 | err e ↦ (err e, r.1) ]

abbrev pub ◌>>◌ : {S E A : Type 0} → Eff S E (Unit {0}) → Eff S E A → Eff S E A
m >> k = m >>= λ _. k

abbrev pub modify : {S E : Type 0} → (S → S) → Eff S E (Unit {0})
modify f s = (ok tt, f s)

-- `for (const x of xs) await body(x)`, with a result that is added up.
abbrev pub for_each : {S E A B : Type 0} → (B → A → Eff S E B) → B → List A → Eff S E B
for_each body b [] s = (ok b, s)
for_each body b (x ∷ xs) s =
    let r = body b x s in elim r.0 [ ok b' ↦ for_each body b' xs r.1 | err e ↦ (err e, r.1) ]

-- A rule for sequences: what both parts keep, the sequence keeps.
unfoldable pub Keeps {ℓ} : {S E A : Type 0} → (S → Type ℓ) → Eff S E A → Type ℓ
Keeps {S = S} P m = (s : S) → P s → P (m s).1

pub Keeps->>= {ℓ} :
    {S E A B : Type 0} (P : S → Type ℓ) (m : Eff S E A) (f : A → Eff S E B)
    → Keeps P m
    → ((a : A) → Keeps P (f a))
    → Keeps P (m >>= f)
unfolding Keeps
Keeps->>= P m f first rest s p = elim (Result-cases (m s).0) [
  | inl (a, e) ↦ rw (e, ◌>>=◌) (rest a (m s).1 (first s p))
  | inr (e', e) ↦ rw (e, ◌>>=◌) (first s p)
]

-- A sequence, by the outcome of its first part.
module _ {S E A B : Type 0} (m : Eff S E A) (f : A → Eff S E B) (s : S) where
  pub >>=-ok : {a : A} {t : S} → m s ≡ (ok a, t) → (m >>= f) s ≡ f a t
  >>=-ok e = ap (λ (r : Result E A × S). elim r.0 [ ok a ↦ f a r.1 | err x ↦ (err x, r.1) ]) e

  pub >>=-err : {x : E} {t : S} → m s ≡ (err x, t) → (m >>= f) s ≡ (err x, t)
  >>=-err e = ap (λ (r : Result E A × S). elim r.0 [ ok a ↦ f a r.1 | err x ↦ (err x, r.1) ]) e

module _ {S E A : Type 0} (m : Eff S E A) (handler : S → S) (s : S) where
  pub on_throw-ok : {a : A} {t : S} → m s ≡ (ok a, t) → on_throw m handler s ≡ (ok a, t)
  on_throw-ok e =
      ap (λ (r : Result E A × S). elim r.0 [ ok a ↦ (ok a, r.1) | err x ↦ (err x, handler r.1) ]) e

  pub on_throw-err : {x : E} {t : S} → m s ≡ (err x, t) → on_throw m handler s ≡ (err x, handler t)
  on_throw-err e =
      ap (λ (r : Result E A × S). elim r.0 [ ok a ↦ (ok a, r.1) | err x ↦ (err x, handler r.1) ]) e

-- What both parts keep, and what the first part's result satisfies.
unfoldable pub Yields {ℓ κ} :
    {S E A : Type 0} → (S → Type ℓ) → (A → Type κ) → Eff S E A → Type (ℓ ⊔ κ)
Yields {S = S} {A = A} P Q m = (s : S) → P s → P (m s).1 × ((a : A) → (m s).0 ≡ ok a → Q a)

pub Keeps-after {ℓ κ} :
    {S E A B : Type 0} (P : S → Type ℓ) (Q : A → Type κ) (m : Eff S E A) (f : A → Eff S E B)
    → Yields P Q m
    → ((a : A) → Q a → Keeps P (f a))
    → Keeps P (m >>= f)
unfolding Keeps Yields
Keeps-after P Q m f first rest s p = elim (Result-cases (m s).0) [
  | inl (a, e) ↦ let (kept, facts) = first s p in rw (e, ◌>>=◌) (rest a (facts a e) (m s).1 kept)
  | inr (e', e) ↦ let (kept, facts) = first s p in rw (e, ◌>>=◌) kept
]

pub gets-Yields {ℓ κ} :
    {S A : Type 0} (E : Type 0) (P : S → Type ℓ) (Q : A → Type κ) (g : S → A)
    → ((s : S) → P s → Q (g s))
    → Yields P Q (gets {E = E} g)
unfolding Yields
gets-Yields E P Q g facts s p = (p, λ a e. let same : g s ≡ a = cc e in subst Q same (facts s p))

pub on_error-Keeps {ℓ} :
    {S E A : Type 0} (P : S → Type ℓ) (m handler : Eff S E A)
    → Keeps P m
    → Keeps P handler
    → Keeps P (on_error m handler)
unfolding Keeps
on_error-Keeps P m handler first second s p = elim (Result-cases (m s).0) [
  | inl (a, e) ↦ rw (e, on_error) (first s p)
  | inr (e', e) ↦ rw (e, on_error) (second (m s).1 (first s p))
]

pub for_each-Keeps {ℓ κ} :
    {S E A B : Type 0} (P : S → Type ℓ) (R : A → Type κ) (body : B → A → Eff S E B)
    → ((b : B) (x : A) → R x → Keeps P (body b x))
    → (xs : List A) → All R xs
    → (b : B) → Keeps P (for_each body b xs)
unfolding Keeps
for_each-Keeps P R body keeps [] rs b s p = p
for_each-Keeps P R body keeps (x ∷ xs) (r, rs) b s p = elim (Result-cases (body b x s).0) [
  | inl (b', e) ↦
      rw (e, for_each) (for_each-Keeps P R body keeps xs rs b' (body b x s).1 (keeps b x r s p))
  | inr (e', e) ↦ rw (e, for_each) (keeps b x r s p)
]

module _ {ℓ} {S A : Type 0} (E : Type 0) (P : S → Type ℓ) where
  pub pure-Keeps : (a : A) → Keeps P (pure {E = E} a)
  unfolding Keeps
  pure-Keeps a s p = p

  pub gets-Keeps : (g : S → A) → Keeps P (gets {E = E} g)
  unfolding Keeps
  gets-Keeps g s p = p

  pub lift-Keeps : (test : S → Result E A) → Keeps P (lift test)
  unfolding Keeps
  lift-Keeps test s p = p

  pub if-Keeps : (b : Bool) (m n : Eff S E A) → Keeps P m → Keeps P n → Keeps P (if b then m else n)
  if-Keeps true m n first second = first
  if-Keeps false m n first second = second
