-- ===== src/Payments/Confirmations/Laws.antt =====
-- What the counts of packages/payments/src/confirmations.ts guarantee.
use crypto_payment.Prelude.{
  ℕ, zero, suc, ◌+◌, ◌-◌, ◌≤◌, ◌<◌, Bool, true, Option, none, some, ok, ◌≡◌, ◌↔◌, inl, inr, arith,
  ◌>>=◌, tests, ltb, Bool-cases, ltb→lt, ltb→ge, leb, le→leb, min,
}
use crypto_payment.Prelude.Int.{ℤ, pos, ◌-ℤ◌, ◌≤ℤ◌, -ℤ_parts}
use crypto_payment.Payments.Confirmations.{
  max_safe_integer, count_confirmations, is_confirmed, effective_confirmations,
  is_within_reorg_window, reorg_rewind_target,
}

count-ahead : (b t : ℕ) → t < b → count_confirmations (pos b) (pos t) ≡ ok (pos 0)
unfolding count_confirmations
count-ahead zero t h = absurd (omega arith)
count-ahead (suc b) t h = ground arith

count-mined :
    (b t : ℕ)
    → 0 < b
    → b ≤ t
    → count_confirmations (pos b) (pos t) ≡ ok (pos (min (t - b + 1) max_safe_integer))
unfolding count_confirmations ◌-ℤ◌
count-mined zero t p h = absurd (omega arith)
count-mined (suc b) t p h = ground arith

is_confirmed-pos : (n r : ℕ) → 0 < r → is_confirmed (pos n) (pos r) ≡ ok (leb r n)
unfolding is_confirmed
is_confirmed-pos n zero h = absurd (omega arith)
is_confirmed-pos n (suc r) h = ground arith

confirmed_test :
    (b t r : ℕ)
    → 0 < b
    → 0 < r
    → r ≤ max_safe_integer
    → (do n ← count_confirmations (pos b) (pos t); is_confirmed n (pos r))
      ≡ ok (leb (b + r) (t + 1))
confirmed_test b t r hb hr fits = elim (Bool-cases (ltb t b)) [
  | inl ahead ↦
      rw (count-ahead b t (ltb→lt _ _ ahead)) (rw (is_confirmed-pos 0 r hr) (ground arith))
  | inr mined ↦
      rw (count-mined b t hb (ltb→ge _ _ mined)) (rw (is_confirmed-pos _ r hr) (ground arith))
]

-- For a transaction in block `b ≥ 1` and a threshold of `r` confirmations, `1 ≤ r ≤ 2^53 - 1`, the
-- count and the test return, and the transaction is confirmed exactly when the tip is at least
-- `b + r - 1`: one confirmation means that it is in the tip block itself.
pub confirmed_iff :
    (b t r : ℕ)
    → 0 < b
    → 0 < r
    → r ≤ max_safe_integer
    → (c : Bool) × ((do n ← count_confirmations (pos b) (pos t); is_confirmed n (pos r)) ≡ ok c)
      × ((c ≡ true) ↔ (b + r ≤ t + 1))
confirmed_iff b t r hb hr fits =
    (leb (b + r) (t + 1), confirmed_test b t r hb hr fits, (λ h. omega tests, λ h. le→leb _ _ h))

-- A merchant can never lower the threshold: whatever the override, a threshold that is returned is at
-- least the asset's floor.
pub effective-ge-default :
    (d : ℤ) (o : Option ℤ) {e : ℤ} → effective_confirmations d o ≡ ok e → d ≤ℤ e
unfolding effective_confirmations
effective-ge-default d none h = ground arith
effective-ge-default d (some o) h = ground arith

-- The height that `reorgRewindTarget` computes covers the window of reorganisations: for a block `b ≥ 1`
-- that was processed (`b ≤ last`) and lies within the window, it is at `b` or below it, not above
-- `last`, and at least 1. It is a bound on the function; the scanner does not call it.
pub rewind_covers_window :
    (last tip depth b : ℤ)
    → pos 0 ≤ℤ depth
    → pos 1 ≤ℤ b
    → b ≤ℤ last
    → is_within_reorg_window b tip depth ≡ ok true
    → (reorg_rewind_target last tip depth ≤ℤ last)
      × (pos 1 ≤ℤ reorg_rewind_target last tip depth)
      × (reorg_rewind_target last tip depth ≤ℤ b)
unfolding reorg_rewind_target is_within_reorg_window
rewind_covers_window last tip depth b h p q w = (
  ground (arith, -ℤ_parts tip depth),
  ground (arith, -ℤ_parts tip depth),
  ground (arith, -ℤ_parts tip depth, -ℤ_parts tip b),
)
