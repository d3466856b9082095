-- ===== src/Monitor/Rescan.antt =====
-- A second scan of a transaction whose transfers are credited, by `processTransaction` of
-- apps/blockchain-monitor/src/monitor.service.ts.
use crypto_payment.Prelude.{String, true, ◌≡◌}
use crypto_payment.Monitor.Store.{Db}
use crypto_payment.Monitor.Chain.{ParsedTransfer}
use crypto_payment.Monitor.Detection.{find_transfer, is_credited}

-- The store holds a credited row for the transfer.
abbrev pub IsCredited : String → String → Db → ParsedTransfer → Type 0
IsCredited network tx_hash db p =
    is_credited (find_transfer network tx_hash p.transfer_index db) ≡ true

-- Only the table of transactions and the counter of ids may differ.
abbrev pub SameButTransactions : Db → Db → Type 0
SameButTransactions db db' =
    db' ≡ record db { transactions = db'.transactions; next_id = db'.next_id }
