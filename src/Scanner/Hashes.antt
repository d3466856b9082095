-- ===== src/Scanner/Hashes.antt =====
-- The hashes that a scan collects only grow: apps/blockchain-monitor/src/scanner.ts.
use crypto_payment.Prelude.{
  String, Bool, true, false, List, [], ◌∷◌, ◌++◌, All, any, str_eq, eq_iff, ◌≡◌, refl, ◌⊎◌, inl,
  inr, Bool-cases,
}
use crypto_payment.Scanner.Discovery.{
  LightTransaction, Address, is_candidate, add_hash, add_hashes, add_candidate, add_candidates,
}

abbrev pub Has : List String → String → Type 0
Has hashes h = any (str_eq h) hashes ≡ true

any-append :
    (test : String → Bool) (xs ys : List String) → any test xs ≡ true → any test (xs ++ ys) ≡ true
any-append test [] ys h = cc h
any-append test (x ∷ xs) ys h = elim (Bool-cases (test x)) [
  | inl here ↦ rw here
  | inr there ↦ rw there (any-append test xs ys (rw there at h))
]

any-last : (h : String) (xs : List String) → Has (xs ++ (h ∷ [])) h
any-last h [] = rw ((eq_iff h h).1 refl)
any-last h (x ∷ xs) = elim (Bool-cases (str_eq h x)) [
  | inl here ↦ rw here
  | inr there ↦ rw there (any-last h xs)
]

-- Hashes are never dropped, and one that is added is there.
add_hash-Has : (hashes : List String) (h : String) → Has (add_hash hashes h) h
unfolding add_hash
add_hash-Has hashes h = elim (Bool-cases (any (str_eq h) hashes)) [
  | inl there ↦ rw there there
  | inr new ↦ rw new (any-last h hashes)
]

add_hash-keeps : (hashes : List String) (h x : String) → Has hashes x → Has (add_hash hashes h) x
unfolding add_hash
add_hash-keeps hashes h x has = elim (Bool-cases (any (str_eq h) hashes)) [
  | inl there ↦ rw there has
  | inr new ↦ rw new (any-append (str_eq x) hashes (h ∷ []) has)
]

pub add_hashes-keeps :
    (hashes new : List String) (x : String) → Has hashes x → Has (add_hashes hashes new) x
unfolding add_hashes
add_hashes-keeps hashes [] x has = has
add_hashes-keeps hashes (h ∷ hs) x has =
    add_hashes-keeps (add_hash hashes h) hs x (add_hash-keeps hashes h x has)

pub add_hashes-Has : (hashes new : List String) → All (Has (add_hashes hashes new)) new
unfolding add_hashes
add_hashes-Has hashes [] = tt
add_hashes-Has hashes (h ∷ hs) = (
  add_hashes-keeps (add_hash hashes h) hs h (add_hash-Has hashes h),
  add_hashes-Has (add_hash hashes h) hs,
)

module _ (tracked : List Address) where
  add_candidate-keeps :
      (hashes : List String) (tx : LightTransaction) (x : String)
      → Has hashes x
      → Has (add_candidate tracked hashes tx) x
  unfolding add_candidate
  add_candidate-keeps hashes tx x has = elim (Bool-cases (is_candidate tracked tx)) [
    | inl ours ↦ rw ours (add_hash-keeps hashes tx.hash x has)
    | inr other ↦ rw other has
  ]

  pub add_candidates-keeps :
      (hashes : List String) (txs : List LightTransaction) (x : String)
      → Has hashes x
      → Has (add_candidates tracked hashes txs) x
  unfolding add_candidates
  add_candidates-keeps hashes [] x has = has
  add_candidates-keeps hashes (tx ∷ txs) x has =
      add_candidates-keeps (add_candidate tracked hashes tx) txs x
        (add_candidate-keeps hashes tx x has)

  abbrev pub Seen : List String → LightTransaction → Type 0
  Seen hashes tx = (is_candidate tracked tx ≡ false) ⊎ Has hashes tx.hash

  add_candidate-Seen :
      (hashes : List String) (tx : LightTransaction) → Seen (add_candidate tracked hashes tx) tx
  unfolding add_candidate
  add_candidate-Seen hashes tx = elim (Bool-cases (is_candidate tracked tx)) [
    | inl ours ↦ rw ours (inr (add_hash-Has hashes tx.hash))
    | inr other ↦ inl other
  ]

  -- More hashes cover as much.
  pub Seen-map :
      (hashes more : List String)
      → ((x : String) → Has hashes x → Has more x)
      → (tx : LightTransaction) → Seen hashes tx
      → Seen more tx
  Seen-map hashes more keeps tx (inl other) = inl other
  Seen-map hashes more keeps tx (inr has) = inr (keeps tx.hash has)

  pub add_candidates-covers :
      (hashes : List String) (txs : List LightTransaction)
      → All (Seen (add_candidates tracked hashes txs)) txs
  unfolding add_candidates
  add_candidates-covers hashes [] = tt
  add_candidates-covers hashes (tx ∷ txs) = (
    Seen-map (add_candidate tracked hashes tx)
        (add_candidates tracked (add_candidate tracked hashes tx) txs)
        (add_candidates-keeps (add_candidate tracked hashes tx) txs) tx
        (add_candidate-Seen hashes tx),
    add_candidates-covers (add_candidate tracked hashes tx) txs,
  )
