-- ===== src/Assets.antt =====
-- packages/shared/src/domain/asset.ts and apps/blockchain-monitor/src/asset-resolver.ts: the assets that
-- the gateway credits. A network is its name; a lookup in `BY_CONTRACT` is a search of the list, in
-- which no two assets share a network and a contract. A contract address stands as `asset` leaves it,
-- in lower case.
pub mod Resolve
use crypto_payment.Prelude.{
  ℕ, String, Bool, true, false, not, ◌&&◌, ◌||◌, Option, none, some, List, [], ◌∷◌, find, filter,
  str_eq, if◌then◌else◌,
}
use crypto_payment.Payments.Confirmations.{same_hash}

pub data TransferSemantics : Type 0 where
  standard fee_on_transfer rebasing : TransferSemantics

-- `AssetConfig`, whose `id` is the network and the symbol.
pub record AssetConfig : Type 0 where
  pub symbol : String
  pub display_name : String
  pub network : String
  pub contract_address : Option String
  pub decimals : ℕ
  pub required_confirmations : ℕ
  pub min_deposit_units : ℕ
  pub transfer_semantics : TransferSemantics
  pub price_feed_symbols : List String
  pub enabled : Bool

abbrev pub btc_bitcoin : AssetConfig
btc_bitcoin = record {
  symbol = "BTC";
  display_name = "Bitcoin";
  network = "BITCOIN";
  contract_address = none;
  decimals = 8;
  required_confirmations = 2;
  min_deposit_units = 10000;
  transfer_semantics = standard;
  price_feed_symbols = "BTC" ∷ [];
  enabled = true;
}

abbrev pub eth_ethereum : AssetConfig
eth_ethereum = record {
  symbol = "ETH";
  display_name = "Ether";
  network = "ETHEREUM";
  contract_address = none;
  decimals = 18;
  required_confirmations = 12;
  min_deposit_units = 1000000000000000;
  transfer_semantics = standard;
  price_feed_symbols = "ETH" ∷ [];
  enabled = true;
}

abbrev pub usdt_ethereum : AssetConfig
usdt_ethereum = record {
  symbol = "USDT";
  display_name = "Tether USD";
  network = "ETHEREUM";
  contract_address = some "0xdac17f958d2ee523a2206206994597c13d831ec7";
  decimals = 6;
  required_confirmations = 12;
  min_deposit_units = 1000000;
  transfer_semantics = standard;
  price_feed_symbols = "USDT" ∷ [];
  enabled = true;
}

abbrev pub usdc_ethereum : AssetConfig
usdc_ethereum = record {
  symbol = "USDC";
  display_name = "USD Coin";
  network = "ETHEREUM";
  contract_address = some "0xa0b86991c6218b36c1d19d4a2e9eb0ce3606eb48";
  decimals = 6;
  required_confirmations = 12;
  min_deposit_units = 1000000;
  transfer_semantics = standard;
  price_feed_symbols = "USDC" ∷ [];
  enabled = true;
}

abbrev pub pol_polygon : AssetConfig
pol_polygon = record {
  symbol = "POL";
  display_name = "Polygon Ecosystem Token";
  network = "POLYGON";
  contract_address = none;
  decimals = 18;
  required_confirmations = 128;
  min_deposit_units = 1000000000000000000;
  transfer_semantics = standard;
  price_feed_symbols = "POL" ∷ "MATIC" ∷ [];
  enabled = true;
}

abbrev pub usdt_polygon : AssetConfig
usdt_polygon = record {
  symbol = "USDT";
  display_name = "Tether USD (Polygon)";
  network = "POLYGON";
  contract_address = some "0xc2132d05d31c914a87c6611c10748aeb04b58e8f";
  decimals = 6;
  required_confirmations = 128;
  min_deposit_units = 1000000;
  transfer_semantics = standard;
  price_feed_symbols = "USDT" ∷ [];
  enabled = true;
}

abbrev pub usdc_polygon : AssetConfig
usdc_polygon = record {
  symbol = "USDC";
  display_name = "USD Coin (Polygon native)";
  network = "POLYGON";
  contract_address = some "0x3c499c542cef5e3811e1192ce70d8cc03d5c3359";
  decimals = 6;
  required_confirmations = 128;
  min_deposit_units = 1000000;
  transfer_semantics = standard;
  price_feed_symbols = "USDC" ∷ [];
  enabled = true;
}

abbrev pub bnb_bsc : AssetConfig
bnb_bsc = record {
  symbol = "BNB";
  display_name = "BNB";
  network = "BSC";
  contract_address = none;
  decimals = 18;
  required_confirmations = 15;
  min_deposit_units = 1000000000000000;
  transfer_semantics = standard;
  price_feed_symbols = "BNB" ∷ [];
  enabled = true;
}

abbrev pub usdt_bsc : AssetConfig
usdt_bsc = record {
  symbol = "USDT";
  display_name = "Tether USD (BSC)";
  network = "BSC";
  contract_address = some "0x55d398326f99059ff775485246999027b3197955";
  decimals = 18;
  required_confirmations = 15;
  min_deposit_units = 1000000000000000000;
  transfer_semantics = standard;
  price_feed_symbols = "USDT" ∷ [];
  enabled = true;
}

abbrev pub usdc_bsc : AssetConfig
usdc_bsc = record {
  symbol = "USDC";
  display_name = "USD Coin (BSC)";
  network = "BSC";
  contract_address = some "0x8ac76a51cc950d9822d68b83fe1ad97b32cd580d";
  decimals = 18;
  required_confirmations = 15;
  min_deposit_units = 1000000000000000000;
  transfer_semantics = standard;
  price_feed_symbols = "USDC" ∷ [];
  enabled = true;
}

abbrev pub eth_ethereum_sepolia : AssetConfig
eth_ethereum_sepolia = record {
  symbol = "ETH";
  display_name = "Sepolia Ether";
  network = "ETHEREUM_SEPOLIA";
  contract_address = none;
  decimals = 18;
  required_confirmations = 3;
  min_deposit_units = 1000000000000;
  transfer_semantics = standard;
  price_feed_symbols = "ETH" ∷ [];
  enabled = true;
}

abbrev pub btc_bitcoin_testnet : AssetConfig
btc_bitcoin_testnet = record {
  symbol = "BTC";
  display_name = "Testnet Bitcoin";
  network = "BITCOIN_TESTNET";
  contract_address = none;
  decimals = 8;
  required_confirmations = 1;
  min_deposit_units = 1000;
  transfer_semantics = standard;
  price_feed_symbols = "BTC" ∷ [];
  enabled = true;
}

abbrev pub asset_list : List AssetConfig
asset_list =
    btc_bitcoin ∷ eth_ethereum ∷ usdt_ethereum ∷ usdc_ethereum ∷ pol_polygon ∷ usdt_polygon
    ∷ usdc_polygon ∷ bnb_bsc ∷ usdt_bsc ∷ usdc_bsc ∷ eth_ethereum_sepolia ∷ btc_bitcoin_testnet ∷ []

-- `found && found.enabled ? found : null`
abbrev pub if_enabled : Option AssetConfig → Option AssetConfig
if_enabled none = none
if_enabled (some found) = if found.enabled then some found else none

-- An asset without a contract is not in `BY_CONTRACT`.
abbrev pub has_contract : String → Option String → Bool
has_contract contract none = false
has_contract contract (some address) = same_hash address contract

abbrev pub is_native : Option String → Bool
is_native none = true
is_native (some _) = false

unfoldable pub find_asset : String → String → Option AssetConfig
find_asset network symbol =
    if_enabled (find (λ a. str_eq a.network network && str_eq a.symbol symbol) asset_list)

unfoldable pub find_asset_by_contract : String → String → Option AssetConfig
find_asset_by_contract network contract =
    if_enabled
      (find (λ a. str_eq a.network network && has_contract contract a.contract_address) asset_list)

unfoldable pub find_native_asset : String → Option AssetConfig
find_native_asset network =
    if_enabled (find (λ a. str_eq a.network network && is_native a.contract_address) asset_list)

abbrev pub in_network : Option String → String → Bool
in_network none network = true
in_network (some wanted) network = str_eq network wanted

-- `listAssets`, with its options.
unfoldable pub list_assets : Option String → Bool → List AssetConfig
list_assets network enabled_only =
    filter (λ a. in_network network a.network && (not enabled_only || a.enabled)) asset_list

-- `isPriceable`
unfoldable pub is_priceable : AssetConfig → Bool
is_priceable config = elim config.price_feed_symbols [ [] ↦ false | _ ∷ _ ↦ true ]

-- `resolveTransferAsset`
unfoldable pub resolve_transfer_asset : String → Option String → Option AssetConfig
resolve_transfer_asset network none = find_native_asset network
resolve_transfer_asset network (some contract) = find_asset_by_contract network contract
