-- ===== src/Scanner/Tracked.antt =====
-- The native payments to the tracked addresses, apart from how apps/blockchain-monitor/src/scanner.ts
-- compares them.
use crypto_payment.Prelude.{
  String, Bool, true, false, ◌&&◌, Option, none, some, List, [], ◌∷◌, All, any, map, ◌≡◌, ◌∙◌, refl,
  sym, ◌⊎◌, inl, inr,
}
use crypto_payment.Prelude.Int.{is_pos}
use crypto_payment.Prelude.Every.{All-map}
use crypto_payment.Payments.Confirmations.{codes, to_lower_case, same_hash}
use crypto_payment.Scanner.Discovery.{
  LightBlock, LightTransaction, is_hex, normalize_for_tracking, is_tracked, pays_to, is_candidate,
}
use crypto_payment.Scanner.Hashes.{Has, Seen}

-- A native payment to one of the addresses, up to the case of the letters.
abbrev pub pays_one_of : List String → LightTransaction → Bool
pays_one_of addresses tx =
    is_pos tx.value && (elim tx.to [ none ↦ false | some to ↦ any (same_hash to) addresses ])

-- Every such payment in the block is among the hashes.
abbrev pub IsCovered : List String → List String → LightBlock → Type 0
IsCovered addresses hashes b =
    All (λ (tx : LightTransaction). (pays_one_of addresses tx ≡ false) ⊎ Has hashes tx.hash)
      b.transactions

tracked_iff :
    (to : String) (addresses : List String)
    → All (λ a. is_hex (codes a) ≡ true) addresses
    → is_tracked (map normalize_for_tracking addresses) (to_lower_case to)
      ≡ any (same_hash to) addresses
unfolding normalize_for_tracking same_hash
tracked_iff to [] hex = refl
tracked_iff to (a ∷ rest) (h, hex) = rw (h, tracked_iff to rest hex) refl

candidate_pays :
    (addresses : List String) (tx : LightTransaction)
    → All (λ a. is_hex (codes a) ≡ true) addresses
    → is_candidate (map normalize_for_tracking addresses) tx ≡ pays_one_of addresses tx
candidate_pays addresses tx hex = by_receiver tx.to
  where
    by_receiver :
        (to : Option String)
        → (is_pos tx.value && pays_to (map normalize_for_tracking addresses) to)
          ≡ (is_pos tx.value && (elim to [ none ↦ false | some a ↦ any (same_hash a) addresses ]))
    by_receiver none = refl
    by_receiver (some a) = rw (tracked_iff a addresses hex) refl

pub Seen-IsCovered :
    (addresses hashes : List String) (b : LightBlock)
    → All (λ a. is_hex (codes a) ≡ true) addresses
    → All (Seen (map normalize_for_tracking addresses) hashes) b.transactions
    → IsCovered addresses hashes b
Seen-IsCovered addresses hashes b hex seen =
    All-map (Seen (map normalize_for_tracking addresses) hashes) _
      (λ tx s. elim s [
        | inl other ↦ inl (sym (candidate_pays addresses tx hex) ∙ other)
        | inr has ↦ inr has
      ])
      b.transactions seen
