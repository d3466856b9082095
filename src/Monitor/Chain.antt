-- ===== src/Monitor/Chain.antt =====
-- What apps/blockchain-monitor/src/monitor.service.ts reads from the chain adapter
-- (packages/blockchain/src/adapter.ts), and `recordChainTransaction`.
use crypto_payment.Prelude.{
  ℕ, String, ◌&&◌, Option, none, some, [], ◌∷◌, ◌++◌, ◌==◌, str_eq, find, update_where,
}
use crypto_payment.Prelude.Int.{ℤ}
use crypto_payment.Prelude.Tx.{gets, modify, pure, ◌>>=◌, ◌>>◌}
use crypto_payment.Payments.Matcher.{TxStatus, reverted}
use crypto_payment.Monitor.Store.{
  BlockchainTransaction, ChainTxStatus, mempool, mined, reverted_tx, MonitorTx, new_id,
}

-- `ChainTransaction` and `ParsedTransfer` of packages/blockchain/src/adapter.ts, with the fields read.
pub record ChainTransaction : Type 0 where
  pub hash : String
  pub block_number : Option ℤ
  pub block_hash : Option String
  pub status : TxStatus
  pub from_address : Option String
  pub to_address : Option String
  pub fee_amount : Option ℤ
  pub confirmations : ℤ

pub record ParsedTransfer : Type 0 where
  pub transfer_index : ℕ
  pub token_contract : Option String
  pub from_address : Option String
  pub to_address : String
  pub amount : ℤ

unfoldable pub chain_status : TxStatus → Option ℤ → ChainTxStatus
chain_status reverted block_number = reverted_tx
chain_status _ none = mempool
chain_status _ (some n) = mined

-- `existing.minedAt ?? new Date()`, where the transaction is in a block.
abbrev pub mined_time : Option ℤ → Option ℤ → ℤ → Option ℤ
mined_time none mined_at now = none
mined_time (some n) none now = some now
mined_time (some n) (some earlier) now = some earlier

unfoldable pub write_chain_transaction :
    Option BlockchainTransaction → ℤ → String → ChainTransaction → MonitorTx ℕ
write_chain_transaction (some existing) now network chain_tx = do
  modify (λ db. record db {
    transactions =
        update_where (λ t. t.id == existing.id)
          (λ t. record t {
            status = chain_status chain_tx.status chain_tx.block_number;
            block_number = chain_tx.block_number;
            block_hash = chain_tx.block_hash;
            confirmations = chain_tx.confirmations;
            mined_at = mined_time chain_tx.block_number existing.mined_at now;
          })
          db.transactions;
  })
  pure existing.id
write_chain_transaction none now network chain_tx = do
  id ← new_id
  modify (λ db. record db {
    transactions =
        db.transactions
        ++ (record {
          id = id;
          network = network;
          tx_hash = chain_tx.hash;
          status = chain_status chain_tx.status chain_tx.block_number;
          block_number = chain_tx.block_number;
          block_hash = chain_tx.block_hash;
          from_address = chain_tx.from_address;
          to_address = chain_tx.to_address;
          fee_amount = chain_tx.fee_amount;
          confirmations = chain_tx.confirmations;
          mined_at = mined_time chain_tx.block_number none now;
          orphaned_at = none;
        }
            ∷ []);
  })
  pure id

unfoldable pub record_chain_transaction : ℤ → String → ChainTransaction → MonitorTx ℕ
record_chain_transaction now network chain_tx = do
  existing ←
      gets (λ db.
        find (λ t. str_eq t.network network && str_eq t.tx_hash chain_tx.hash) db.transactions)
  write_chain_transaction existing now network chain_tx
