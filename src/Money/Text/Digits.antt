-- ===== src/Money/Text/Digits.antt =====
-- The digits of a number, for packages/shared/src/money/decimal.ts.
use crypto_payment.Prelude.{
  ℕ, zero, suc, ◌+◌, ◌-◌, ◌*◌, ◌/◌, ◌%◌, ◌^◌, ◌<◌, ◌≤◌, false, [], ◌∷◌, ◌++◌, All, All-append,
  length, length-append, ltb, Bool-cases, ltb→lt, ltb→ge, ◌≡◌, refl, inl, inr, arith,
}
use crypto_payment.Money.Text.{Text, is_empty, digits, to_text, read, zeros}

abbrev pub IsDigit : ℕ → Type 0
IsDigit c = (b'0' ≤ c) × (c ≤ b'9')

digits_small : (fuel n : ℕ) → n < 10 → digits (suc fuel) n ≡ (b'0' + n) ∷ []
unfolding digits
digits_small fuel n h = ground arith

digits_large :
    (fuel n : ℕ) → 10 ≤ n → digits (suc fuel) n ≡ digits fuel (n / 10) ++ ((b'0' + n % 10) ∷ [])
unfolding digits
digits_large fuel n h = ground arith

read-append : (n : ℕ) (s : Text) (c : ℕ) → read n (s ++ (c ∷ [])) ≡ read n s * 10 + (c - b'0')
read-append n [] c = refl
read-append n (d ∷ s) c = read-append (n * 10 + (d - b'0')) s c

-- Reading the digits of a number gives the number, where the fuel is enough.
read-digits : (fuel n : ℕ) → n < fuel → read 0 (digits fuel n) ≡ n
read-digits zero n h = absurd (omega (arith, h))
read-digits (suc fuel) n h = elim (Bool-cases (ltb n 10)) [
  | inl small ↦ rw (digits_small fuel n (ltb→lt n 10 small)) (omega arith)
  | inr large ↦
      let ge = ltb→ge n 10 large in
      rw
        (
          digits_large fuel n ge,
          read-append 0 (digits fuel (n / 10)) (b'0' + n % 10),
          read-digits fuel (n / 10) (omega (arith, h, ge)),
        )
        (omega arith)
]

digits-IsDigit : (fuel n : ℕ) → All IsDigit (digits fuel n)
unfolding digits
digits-IsDigit zero n = tt
digits-IsDigit (suc fuel) n = elim (Bool-cases (ltb n 10)) [
  | inl small ↦
      rw (digits_small fuel n (ltb→lt n 10 small))
        ((omega arith, omega (arith, ltb→lt n 10 small)), tt)
  | inr large ↦ rw (digits_large fuel n (ltb→ge n 10 large)) (
      All-append IsDigit (digits fuel (n / 10)) _ (digits-IsDigit fuel (n / 10))
        ((omega arith, omega arith), tt))
]

length-digits : (k fuel n : ℕ) → n < 10 ^ suc k → length (digits fuel n) ≤ suc k
unfolding digits
length-digits k zero n h = omega arith
length-digits zero (suc fuel) n h = rw (digits_small fuel n (omega (arith, h))) (omega arith)
length-digits (suc k) (suc fuel) n h = elim (Bool-cases (ltb n 10)) [
  | inl small ↦ rw (digits_small fuel n (ltb→lt n 10 small)) (omega arith)
  | inr large ↦ rw (digits_large fuel n (ltb→ge n 10 large)) (
      omega (
        arith,
        length-append (digits fuel (n / 10)) ((b'0' + n % 10) ∷ []),
        length-digits k fuel (n / 10) (omega (arith, h)),
      ))
]

pub read-to_text : (n : ℕ) → read 0 (to_text n) ≡ n
unfolding to_text
read-to_text n = read-digits (suc n) n (omega arith)

pub to_text-IsDigit : (n : ℕ) → All IsDigit (to_text n)
unfolding to_text
to_text-IsDigit n = digits-IsDigit (suc n) n

pub length-to_text : (k n : ℕ) → n < 10 ^ suc k → length (to_text n) ≤ suc k
unfolding to_text
length-to_text k n h = length-digits k (suc n) n h

pub read-zeros : (k : ℕ) (s : Text) → read 0 (zeros k ++ s) ≡ read 0 s
read-zeros zero s = refl
read-zeros (suc k) s = read-zeros k s

pub zeros-IsDigit : (k : ℕ) → All IsDigit (zeros k)
zeros-IsDigit zero = tt
zeros-IsDigit (suc k) = ((omega arith, omega arith), zeros-IsDigit k)

snoc-not-empty : (s : Text) (c : ℕ) → is_empty (s ++ (c ∷ [])) ≡ false
snoc-not-empty [] c = refl
snoc-not-empty (d ∷ s) c = refl

pub to_text-not-empty : (n : ℕ) → is_empty (to_text n) ≡ false
unfolding to_text
to_text-not-empty n = elim (Bool-cases (ltb n 10)) [
  | inl small ↦ rw (digits_small n n (ltb→lt n 10 small))
  | inr large ↦ rw (digits_large n n (ltb→ge n 10 large)) (snoc-not-empty (digits n (n / 10)) _)
]
