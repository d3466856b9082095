-- ===== src/Scanner/Coverage.antt =====
-- What one range of apps/blockchain-monitor/src/scanner.ts covers.
use crypto_payment.Prelude.{
  ℕ, zero, suc, ◌+◌, ◌-◌, ◌≤◌, true, false, Option, none, some, List, [], ◌∷◌, ◌≡◌, inl, inr,
  Bool-cases, Option-cases, arith, leb→le, leb→gt,
}
use crypto_payment.Prelude.Int.{ℤ, pos, ◌+ℤ◌, leb_ℤ, pos_part, neg_part, +ℤ_parts}
use crypto_payment.Scanner.Discovery.{
  LightBlock, Address, Scan, nothing_scanned, scan_block, scan_blocks,
}

-- The specification: the blocks from a height on that the node has, `n` at most.
unfoldable pub available : (ℤ → Option LightBlock) → ℕ → ℤ → List LightBlock
available read zero height = []
available read (suc n) height = elim (read height) [
  | none ↦ []
  | some block ↦ block ∷ available read n (height +ℤ pos 1)
]

-- The sum of some blocks.
unfoldable pub summarise : List Address → Scan → List LightBlock → Scan
summarise tracked scan [] = scan
summarise tracked scan (b ∷ bs) = summarise tracked (scan_block tracked scan b) bs

-- How many heights a range has.
abbrev pub range_size : ℤ → ℤ → ℕ
range_size from to = suc (pos_part to + neg_part from) - (pos_part from + neg_part to)

size_step :
    (from to : ℤ) → leb_ℤ from to ≡ true → range_size from to ≡ suc (range_size (from +ℤ pos 1) to)
size_step from to h = omega (arith, +ℤ_parts from (pos 1), leb→le _ _ h)

size_empty : (from to : ℤ) → leb_ℤ from to ≡ false → range_size from to ≡ 0
size_empty from to h = omega (arith, leb→gt _ _ h)

scan_from :
    (read : ℤ → Option LightBlock) (tracked : List Address) (fuel : ℕ) (from to : ℤ) (scan : Scan)
    → range_size from to ≤ fuel
    → scan_blocks read tracked fuel from to scan
      ≡ summarise tracked scan (available read (range_size from to) from)
unfolding scan_blocks summarise available
scan_from read tracked zero from to scan enough =
    let none_left : range_size from to ≡ 0 = omega (arith, enough) in rw none_left
scan_from read tracked (suc fuel) from to scan enough = elim (Bool-cases (leb_ℤ from to)) [
  | inr h ↦ rw (scan_blocks, h, size_empty from to h)
  | inl h ↦
      let step = size_step from to h in
      elim (Option-cases (read from)) [
        | inl missing ↦ rw (scan_blocks, h, step, missing, available)
        | inr (b, found) ↦
            rw (scan_blocks, h, step, found, available)
              (scan_from read tracked fuel (from +ℤ pos 1) to (scan_block tracked scan b)
                (omega (arith, enough, step)))
      ]
]

-- With fuel for every height of the range, the loop over it stops, and gives the sum of the blocks from
-- the first height on, up to the end of the range or the first block that the node does not have.
pub scan_blocks-available :
    (read : ℤ → Option LightBlock) (tracked : List Address) (fuel : ℕ) (from to : ℤ)
    → range_size from to ≤ fuel
    → scan_blocks read tracked fuel from to nothing_scanned
      ≡ summarise tracked nothing_scanned (available read (range_size from to) from)
scan_blocks-available read tracked fuel from to enough =
    scan_from read tracked fuel from to nothing_scanned enough
