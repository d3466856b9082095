-- ===== src/Scanner/Discovery.antt =====
-- apps/blockchain-monitor/src/scanner.ts: the blocks of a range, by the cheap reads of an EVM node.
-- What the adapter returns during a tick is a parameter, as are its address check and its log query.
use crypto_payment.Prelude.{
  ℕ, zero, suc, ◌+◌, String, Bool, true, false, ◌&&◌, Option, none, some, List, [], ◌∷◌, ◌++◌, any,
  ◌==◌, str_eq, if◌then◌else◌,
}
use crypto_payment.Prelude.Int.{ℤ, pos, ◌+ℤ◌, ◌-ℤ◌, leb_ℤ, is_pos}
use crypto_payment.Payments.Confirmations.{codes, to_lower_case, same_codes}
use crypto_payment.Assets.{AssetConfig, list_assets}

-- `EvmLightBlock` and its transactions.
pub record LightTransaction : Type 0 where
  pub hash : String
  pub to : Option String
  pub value : ℤ

pub record LightBlock : Type 0 where
  pub number : ℤ
  pub hash : String
  pub transactions : List LightTransaction

-- An address as it is compared: the codes of its characters.
abbrev pub Address : Type 0
Address = List ℕ

abbrev pub is_hex : Address → Bool
is_hex (a ∷ b ∷ s) = a == b'0' && b == b'x'
is_hex _ = false

-- `normalizeForTracking`
unfoldable pub normalize_for_tracking : String → Address
normalize_for_tracking address =
    if is_hex (codes address) then to_lower_case address else codes address

abbrev pub is_tracked : List Address → Address → Bool
is_tracked tracked address = any (same_codes address) tracked

-- `Set.add`
unfoldable pub add_hash : List String → String → List String
add_hash hashes hash = if any (str_eq hash) hashes then hashes else hashes ++ (hash ∷ [])

unfoldable pub add_hashes : List String → List String → List String
add_hashes hashes [] = hashes
add_hashes hashes (h ∷ hs) = add_hashes (add_hash hashes h) hs

abbrev pub pays_to : List Address → Option String → Bool
pays_to tracked none = false
pays_to tracked (some to) = is_tracked tracked (to_lower_case to)

-- A native transfer to one of ours.
abbrev pub is_candidate : List Address → LightTransaction → Bool
is_candidate tracked tx = is_pos tx.value && pays_to tracked tx.to

unfoldable pub add_candidate : List Address → List String → LightTransaction → List String
add_candidate tracked hashes tx =
    if is_candidate tracked tx then add_hash hashes tx.hash else hashes

unfoldable pub add_candidates : List Address → List String → List LightTransaction → List String
add_candidates tracked hashes [] = hashes
add_candidates tracked hashes (tx ∷ txs) =
    add_candidates tracked (add_candidate tracked hashes tx) txs

-- The variables of the loop over the range.
pub record Scan : Type 0 where
  pub candidate_hashes : List String
  pub scanned_blocks : ℕ
  pub last_block : Option (ℤ × String)

abbrev pub nothing_scanned : Scan
nothing_scanned = record { candidate_hashes = []; scanned_blocks = 0; last_block = none }

unfoldable pub scan_block : List Address → Scan → LightBlock → Scan
scan_block tracked scan block = record {
  candidate_hashes = add_candidates tracked scan.candidate_hashes block.transactions;
  scanned_blocks = scan.scanned_blocks + 1;
  last_block = some (block.number, block.hash);
}

-- `for (let height = from; height <= to; height += 1n)`, that stops at a block which is missing.
unfoldable pub scan_blocks : (ℤ → Option LightBlock) → List Address → ℕ → ℤ → ℤ → Scan → Scan
scan_blocks read tracked zero height to scan = scan
scan_blocks read tracked (suc fuel) height to scan = elim (leb_ℤ height to) [
  | false ↦ scan
  | true ↦ elim (read height) [
    | none ↦ scan
    | some block ↦
        scan_blocks read tracked fuel (height +ℤ pos 1) to (scan_block tracked scan block)
  ]
]

-- The contracts of the network's enabled assets.
unfoldable pub contracts_of : List AssetConfig → List String
contracts_of [] = []
contracts_of (asset ∷ assets) = elim asset.contract_address [
  | none ↦ contracts_of assets
  | some contract ↦ contract ∷ contracts_of assets
]

abbrev pub TransferLogs : Type 0
TransferLogs = ℤ → ℤ → List String → List Address → List String

-- One query for the token transfers of the blocks that were read.
unfoldable pub with_token_transfers : TransferLogs → String → List Address → ℤ → Scan → Scan
with_token_transfers logs network tracked from scan = elim scan.scanned_blocks [
  | zero ↦ scan
  | suc n ↦ record scan {
    candidate_hashes = add_hashes scan.candidate_hashes (
        logs from (from +ℤ pos (suc n) -ℤ pos 1) (contracts_of (list_assets (some network) true))
          tracked);
  }
]
