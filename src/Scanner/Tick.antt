-- ===== src/Scanner/Tick.antt =====
-- apps/blockchain-monitor/src/scanner.ts: one tick of the scanner. The monitor that it drives is an
-- interface on a state `M`; what it throws ends the tick, and what was written stays.
use crypto_payment.Prelude.{
  ℕ, String, Bool, true, false, not, ◌&&◌, Option, none, some, List, [], ◌∷◌, length, if◌then◌else◌,
}
use crypto_payment.Prelude.Effect.{Eff, pure, gets, modify, for_each, ◌>>=◌, ◌>>◌}
use crypto_payment.Prelude.Int.{ℤ, pos, ◌+ℤ◌, ◌-ℤ◌, ltb_ℤ, is_pos}
use crypto_payment.Payments.Confirmations.{same_hash}
use crypto_payment.Scanner.Discovery.{
  LightBlock, Address, normalize_for_tracking, Scan, nothing_scanned, scan_blocks, TransferLogs,
  with_token_transfers,
}

-- `MonitorServiceLike`, with its state and its errors.
pub record MonitorService (M : Type 0) (E : Type 0) : Type 0 where
  pub process_transaction : String → Eff M E (Unit {0})
  pub update_confirmations : Eff M E (Unit {0})
  pub handle_reorg : ℤ → Eff M E (Unit {0})

-- What the adapter answers during a tick.
pub record Chain : Type 0 where
  pub current_block : ℤ
  pub light_block : ℤ → Option LightBlock
  pub transfer_logs : TransferLogs
  pub validate_address : Address → Bool

-- A row of `chain_cursors`.
pub record ChainCursor : Type 0 where
  pub last_processed_block : ℤ
  pub last_processed_hash : Option String
  pub chain_tip_block : ℤ

pub record ScannerState (M : Type 0) : Type 0 where
  pub cursor : Option ChainCursor
  pub monitor : M

pub record ScanResult : Type 0 where
  pub scanned_blocks : ℕ
  pub candidate_transactions : ℕ
  pub reorg_detected : Bool
  pub chain_tip : ℤ
  pub last_processed_block : ℤ

-- The position that the tick works with: a block and the hash it had.
abbrev pub Position : Type 0
Position = ℤ × Option String

abbrev pub ScannerIo : Type 0 → Type 0 → Type 0 → Type 0
ScannerIo M E A = Eff (ScannerState M) E A

module _ {M E : Type 0} where
  abbrev pub in_monitor : Eff M E (Unit {0}) → ScannerIo M E (Unit {0})
  in_monitor step s = let r = step s.monitor in (r.0, record s { monitor = r.1 })

  abbrev pub write_cursor : ℤ → Position → ScannerIo M E (Unit {0})
  write_cursor tip position = modify (λ s. record s {
    cursor = some (record {
      last_processed_block = position.0;
      last_processed_hash = position.1;
      chain_tip_block = tip;
    });
  })

  unfoldable pub start_cursor : ℤ → Option ChainCursor → ScannerIo M E Position
  start_cursor tip (some existing) =
      pure (existing.last_processed_block, existing.last_processed_hash)
  start_cursor tip none = do
    let start = if is_pos tip then tip -ℤ pos 1 else pos 0
    write_cursor tip (start, none)
    pure (start, none)

  unfoldable pub load_cursor : ℤ → ScannerIo M E Position
  load_cursor tip = do existing ← gets (λ s. s.cursor); start_cursor tip existing

abbrev pub hash_of : Option LightBlock → Option String
hash_of none = none
hash_of (some block) = some block.hash

-- `getBlockHash`
abbrev pub get_block_hash : Chain → ℤ → Option String
get_block_hash chain number = hash_of (chain.light_block number)

abbrev pub hash_changed : String → Option String → Bool
hash_changed stored none = true
hash_changed stored (some hash) = not (same_hash hash stored)

unfoldable pub check_for_reorg : Chain → Position → Bool
check_for_reorg chain (number, none) = false
check_for_reorg chain (number, some stored) =
    is_pos number && hash_changed stored (get_block_hash chain number)

unfoldable pub rewound_to : Chain → ℤ → Position
rewound_to chain from_block =
    let rewound = if is_pos from_block then from_block -ℤ pos 1 else pos 0 in
    (rewound, if is_pos rewound then get_block_hash chain rewound else none)

-- The row after `rewindCursor`; its `lastReorgAt` and `lastReorgDepth` are for display.
abbrev pub moved_to : Position → Option ChainCursor → Option ChainCursor
moved_to position none = none
moved_to position (some row) =
    some (record row { last_processed_block = position.0; last_processed_hash = position.1 })

-- `from`, and the last height of the range.
abbrev pub range_end : ℤ → ℕ → ℤ → ℤ
range_end tip batch_size from =
    let limit = from +ℤ pos batch_size -ℤ pos 1 in
    if ltb_ℤ tip from then from -ℤ pos 1 else if ltb_ℤ tip limit then tip else limit

-- `scanRangeFast` up to its calls of the monitor; the range has at most a batch of heights.
unfoldable pub discover : Chain → String → ℕ → List Address → ℤ → ℤ → Scan
discover chain network batch_size tracked from to =
    with_token_transfers chain.transfer_logs network tracked from
      (scan_blocks chain.light_block tracked batch_size from to nothing_scanned)

unfoldable pub tracked_addresses : Chain → List String → List Address
tracked_addresses chain [] = []
tracked_addresses chain (row ∷ rows) =
    let address = normalize_for_tracking row in
    if chain.validate_address address
    then address ∷ tracked_addresses chain rows
    else tracked_addresses chain rows

abbrev pub ending_position : Position → Option (ℤ × String) → Position
ending_position position none = position
ending_position position (some (number, hash)) = (number, some hash)

module _ {M E : Type 0} (monitor : MonitorService M E) where
  unfoldable pub rewind_cursor : Chain → ℤ → ScannerIo M E Position
  rewind_cursor chain from_block = do
    in_monitor (monitor.handle_reorg from_block)
    modify (λ s. record s { cursor = moved_to (rewound_to chain from_block) s.cursor })
    pure (rewound_to chain from_block)

  unfoldable pub position_after_check : Chain → Position → ScannerIo M E Position
  position_after_check chain position =
      if check_for_reorg chain position then rewind_cursor chain position.0 else pure position

  unfoldable pub process_all : List String → ScannerIo M E (Unit {0})
  process_all hashes = for_each (λ u hash. in_monitor (monitor.process_transaction hash)) tt hashes

  -- The rows of the addresses that are ASSIGNED or RETIRED are read from the monitor's database.
  module _ (address_rows : M → List String) (network : String) (batch_size : ℕ) where
    abbrev pub discovered : Chain → ℤ → M → Scan
    discovered chain last_processed m =
        let from = last_processed +ℤ pos 1 in
        discover chain network batch_size (tracked_addresses chain (address_rows m)) from
          (range_end chain.current_block batch_size from)

    unfoldable pub finish_tick : Chain → Position → Bool → Scan → ScannerIo M E ScanResult
    finish_tick chain position reorg_detected scan = do
      process_all scan.candidate_hashes
      write_cursor chain.current_block (ending_position position scan.last_block)
      in_monitor monitor.update_confirmations
      pure (record {
        scanned_blocks = scan.scanned_blocks;
        candidate_transactions = length scan.candidate_hashes;
        reorg_detected = reorg_detected;
        chain_tip = chain.current_block;
        last_processed_block = (ending_position position scan.last_block).0;
      })

    unfoldable pub tick : Chain → ScannerIo M E ScanResult
    tick chain = do
      loaded ← load_cursor chain.current_block
      position ← position_after_check chain loaded
      scan ← gets (λ s. discovered chain position.0 s.monitor)
      finish_tick chain position (check_for_reorg chain loaded) scan
