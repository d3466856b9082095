-- ===== src/Scanner/Complete.antt =====
-- The blocks and payments of a range: apps/blockchain-monitor/src/scanner.ts.
use crypto_payment.Prelude.{
  true, map, ℕ, zero, suc, ◌+◌, ◌≤◌, String, Option, none, some, List, [], ◌∷◌, All, length, ◌≡◌,
  ◌∙◌, refl, inl, inr, Bool-cases, Option-cases, arith, ltb→lt, ltb→ge,
}
use crypto_payment.Prelude.Int.{ℤ, pos, ◌+ℤ◌, ◌-ℤ◌, +ℤ_parts, -ℤ_parts, ltb_ℤ}
use crypto_payment.Payments.Confirmations.{codes}
use crypto_payment.Assets.{list_assets}
use crypto_payment.Scanner.Discovery.{
  is_hex, normalize_for_tracking, contracts_of, LightBlock, Address, TransferLogs, Scan,
  nothing_scanned, scan_block, with_token_transfers,
}
use crypto_payment.Prelude.Every.{All-map}
use crypto_payment.Scanner.Tracked.{IsCovered, Seen-IsCovered}
use crypto_payment.Scanner.Tick.{Chain, discover, range_end}
use crypto_payment.Scanner.Hashes.{
  Has, Seen, Seen-map, add_hashes-keeps, add_hashes-Has, add_candidates-keeps,
  add_candidates-covers,
}
use crypto_payment.Scanner.Coverage.{available, summarise, range_size, scan_blocks-available}

-- The node's blocks at one height after the other.
abbrev pub IsRun : (ℤ → Option LightBlock) → ℤ → List LightBlock → Type 0
IsRun read height [] = Unit
IsRun read height (b ∷ bs) =
    ((read height ≡ some b) × (b.number ≡ height)) × IsRun read (height +ℤ pos 1) bs

abbrev pub last_of : Option (ℤ × String) → List LightBlock → Option (ℤ × String)
last_of last [] = last
last_of last (b ∷ bs) = last_of (some (b.number, b.hash)) bs

-- What the node's log query answers for the heights of the blocks, which stand one after the other from
-- `from` on, and for the contracts of the network's enabled assets.
abbrev pub token_hashes : Chain → String → List Address → ℤ → List LightBlock → List String
token_hashes chain network tracked from [] = []
token_hashes chain network tracked from (b ∷ bs) =
    chain.transfer_logs from (from +ℤ pos (length (b ∷ bs)) -ℤ pos 1)
      (contracts_of (list_assets (some network) true)) tracked

available-IsRun :
    (read : ℤ → Option LightBlock)
    → ((h : ℤ) (b : LightBlock) → read h ≡ some b → b.number ≡ h)
    → (n : ℕ) (height : ℤ) → IsRun read height (available read n height)
unfolding available
available-IsRun read honest zero height = tt
available-IsRun read honest (suc n) height = elim (Option-cases (read height)) [
  | inl missing ↦ rw (available, missing) tt
  | inr (b, found) ↦
      rw (available, found)
        ((found, honest height b found), available-IsRun read honest n (height +ℤ pos 1))
]

length-available :
    (read : ℤ → Option LightBlock) (n : ℕ) (height : ℤ) → length (available read n height) ≤ n
unfolding available
length-available read zero height = omega arith
length-available read (suc n) height = elim (Option-cases (read height)) [
  | inl missing ↦ rw (available, missing) (omega arith)
  | inr (b, found) ↦
      rw (available, found) (omega (arith, length-available read n (height +ℤ pos 1)))
]

module _ (tracked : List Address) where
  abbrev Covered : List String → LightBlock → Type 0
  Covered hashes b = All (Seen tracked hashes) b.transactions

  summarise-keeps :
      (scan : Scan) (bs : List LightBlock) (x : String)
      → Has scan.candidate_hashes x
      → Has (summarise tracked scan bs).candidate_hashes x
  unfolding summarise scan_block
  summarise-keeps scan [] x has = has
  summarise-keeps scan (b ∷ bs) x has =
      summarise-keeps (scan_block tracked scan b) bs x
        (add_candidates-keeps tracked scan.candidate_hashes b.transactions x has)

  summarise-covers :
      (scan : Scan) (bs : List LightBlock)
      → All (Covered (summarise tracked scan bs).candidate_hashes) bs
  unfolding summarise scan_block
  summarise-covers scan [] = tt
  summarise-covers scan (b ∷ bs) =
      let next = scan_block tracked scan b in
      (
        All-map (Seen tracked next.candidate_hashes)
            (Seen tracked (summarise tracked next bs).candidate_hashes)
            (Seen-map tracked next.candidate_hashes _ (summarise-keeps next bs)) b.transactions
            (add_candidates-covers tracked scan.candidate_hashes b.transactions),
        summarise-covers next bs,
      )

  summarise-counts :
      (scan : Scan) (bs : List LightBlock)
      → ((summarise tracked scan bs).scanned_blocks ≡ scan.scanned_blocks + length bs)
        × ((summarise tracked scan bs).last_block ≡ last_of scan.last_block bs)
  unfolding summarise scan_block
  summarise-counts scan [] = (omega arith, refl)
  summarise-counts scan (b ∷ bs) =
      let (count, last) = summarise-counts (scan_block tracked scan b) bs in
      (omega (arith, count), last)

-- The token transfers only add hashes.
token_transfers-add :
    (logs : TransferLogs) (network : String) (tracked : List Address) (from : ℤ) (scan : Scan)
    → ((with_token_transfers logs network tracked from scan).scanned_blocks ≡ scan.scanned_blocks)
      × ((with_token_transfers logs network tracked from scan).last_block ≡ scan.last_block)
      × ((x : String)
          → Has scan.candidate_hashes x
          → Has (with_token_transfers logs network tracked from scan).candidate_hashes x)
unfolding with_token_transfers
token_transfers-add logs network tracked from scan = by_count scan.scanned_blocks refl
  where
    by_count :
        (n : ℕ)
        → scan.scanned_blocks ≡ n
        → ((with_token_transfers logs network tracked from scan).scanned_blocks
            ≡ scan.scanned_blocks)
          × ((with_token_transfers logs network tracked from scan).last_block ≡ scan.last_block)
          × ((x : String)
              → Has scan.candidate_hashes x
              → Has (with_token_transfers logs network tracked from scan).candidate_hashes x)
    by_count zero h = rw (with_token_transfers, h) (h, refl, λ x has. has)
    by_count (suc n) h =
        rw (with_token_transfers, h)
          (h, refl, λ x has. add_hashes-keeps scan.candidate_hashes _ x has)

-- The answer of the log query is among the hashes.
token_transfers-Has :
    (chain : Chain) (network : String) (tracked : List Address) (from : ℤ) (scan : Scan)
    (bs : List LightBlock)
    → scan.scanned_blocks ≡ length bs
    → All
        (Has (with_token_transfers chain.transfer_logs network tracked from scan).candidate_hashes)
        (token_hashes chain network tracked from bs)
unfolding with_token_transfers
token_transfers-Has chain network tracked from scan [] count = tt
token_transfers-Has chain network tracked from scan (b ∷ bs) count =
    rw (with_token_transfers, count) (add_hashes-Has scan.candidate_hashes _)

range_end-size :
    (tip from : ℤ) (batch : ℕ)
    → (range_size from (range_end tip batch from) ≤ batch)
      × (range_size from (range_end tip batch from) ≤ range_size from tip)
range_end-size tip from batch =
    let limit = from +ℤ pos batch -ℤ pos 1 in
    elim (Bool-cases (ltb_ℤ tip from)) [
      | inl over ↦
          rw over (omega (arith, -ℤ_parts from (pos 1)), omega (arith, -ℤ_parts from (pos 1)))
      | inr under ↦ elim (Bool-cases (ltb_ℤ tip limit)) [
        | inl h ↦
            rw (under, h)
              (
                omega (
                  arith,
                  ltb→lt _ _ h,
                  -ℤ_parts (from +ℤ pos batch) (pos 1),
                  +ℤ_parts from (pos batch),
                ),
                omega arith,
              )
        | inr h ↦
            rw (under, h)
              (
                omega (arith, -ℤ_parts (from +ℤ pos batch) (pos 1), +ℤ_parts from (pos batch)),
                omega (arith, ltb→ge _ _ h),
              )
      ]
    ]

-- A range ends at the tip or after a batch. For a node that numbers its blocks truly, and tracked
-- addresses that begin with `0x`, the scan covers the node's blocks from the first height of the range
-- on, one after the other, up to its end or the first block that is missing: it counts them all, no more
-- than a batch and none over the tip, and its last block, where the cursor goes, is the last of them.
-- Among the hashes for the monitor are every native payment in one of them to a tracked address, in
-- whatever case either is written, and all that the node's log query answers for token transfers at
-- their heights to the tracked addresses.
pub discover_complete :
    (chain : Chain) (network : String) (batch : ℕ) (addresses : List String) (from : ℤ)
    → ((h : ℤ) (b : LightBlock) → chain.light_block h ≡ some b → b.number ≡ h)
    → All (λ a. is_hex (codes a) ≡ true) addresses
    → let to = range_end chain.current_block batch from in
      let tracked = map normalize_for_tracking addresses in
      let scan = discover chain network batch tracked from to in
      let bs = available chain.light_block (range_size from to) from in
      IsRun chain.light_block from bs
      × (scan.scanned_blocks ≡ length bs)
      × (length bs ≤ batch)
      × (length bs ≤ range_size from chain.current_block)
      × (scan.last_block ≡ last_of none bs)
      × All (IsCovered addresses scan.candidate_hashes) bs
      × All (Has scan.candidate_hashes) (token_hashes chain network tracked from bs)
unfolding discover
discover_complete chain network batch addresses from honest hex =
    let tracked = map normalize_for_tracking addresses in
    let to = range_end chain.current_block batch from in
    let size = range_size from to in
    let bs = available chain.light_block size from in
    let (in_batch, below_tip) = range_end-size chain.current_block from batch in
    let found = summarise tracked nothing_scanned bs in
    let exact = scan_blocks-available chain.light_block tracked batch from to in_batch in
    let (count, last) = summarise-counts tracked nothing_scanned bs in
    let (same_count, same_last, more) =
      token_transfers-add chain.transfer_logs network tracked from found in
    let short = length-available chain.light_block size from in
    rw exact (
      available-IsRun chain.light_block honest size from,
      omega (arith, same_count, count),
      omega (arith, short, in_batch),
      omega (arith, short, below_tip),
      same_last ∙ last,
      All-map (Covered tracked found.candidate_hashes) _
          (λ b covered. Seen-IsCovered addresses _ b hex (
            All-map (Seen tracked found.candidate_hashes) (Seen tracked _)
              (Seen-map tracked found.candidate_hashes _ more) b.transactions covered))
          bs (summarise-covers tracked nothing_scanned bs),
      token_transfers-Has chain network tracked from found bs (omega (arith, count)),
    )
