-- ===== src/Examples/Samples.antt =====
-- An invoice for 1000000 units of USDT on Ethereum, its merchant, and the transfer that pays it
-- (the rows of packages/database/prisma/schema.prisma that the operations read).
use crypto_payment.Prelude.{none, some, [], ◌∷◌}
use crypto_payment.Prelude.Int.{pos}
use crypto_payment.Invoice.Status.{InvoiceStatus}
use crypto_payment.Payments.Matcher.{pending_confirmation, credited, awaiting_confirmations}
use crypto_payment.Ledger.Store.{Ledger}
use crypto_payment.Ledger.Posting.{PostPaymentCreditParams}
use crypto_payment.Money.Natural.{amount}
use crypto_payment.Monitor.Store.{
  Db, Invoice, TokenTransfer, mined, review_underpayment, review_overpayment,
}

abbrev pub empty_ledger : Ledger
empty_ledger = record {
  accounts = [];
  transactions = [];
  entries = [];
  next_id = 100;
  next_sequence = 1;
}

abbrev pub sample_posting : PostPaymentCreditParams
sample_posting = record {
  merchant_id = 7;
  invoice_id = 1;
  token_transfer_id = 3;
  network = "ETHEREUM";
  asset_symbol = "USDT";
  asset_decimals = 6;
  gross_amount = amount "USDT" 6 0;
  fee_bps = pos 0;
  idempotency_key = record { network = "ETHEREUM"; tx_hash = "0xaa"; transfer_index = 0 };
}

abbrev pub sample_invoice : InvoiceStatus → Invoice
sample_invoice status = record {
  id = 1;
  merchant_id = 7;
  order_id = "order-1";
  status = status;
  network = "ETHEREUM";
  payment_asset = "USDT";
  payment_decimals = 6;
  crypto_amount = pos 1000000;
  received_amount = pos 0;
  confirmed_amount = pos 0;
  confirmation_count = pos 0;
  required_confirmations = pos 12;
  underpayment_tolerance_bps = pos 0;
  overpayment_tolerance_bps = pos 0;
  expires_at = pos 900000;
  detected_at = none;
  paid_at = none;
  version = 0;
}

abbrev pub sample_transfer : TokenTransfer
sample_transfer = record {
  id = 3;
  transaction_id = 2;
  network = "ETHEREUM";
  tx_hash = "0xaa";
  transfer_index = 0;
  token_contract = some "0xdAC17F958D2ee523a2206206994597C13D831ec7";
  asset_symbol = "USDT";
  asset_decimals = 6;
  amount = pos 1000000;
  from_address = none;
  to_address = "0x01";
  payment_address_id = some 4;
  invoice_id = some 1;
  match_status = pending_confirmation;
  match_reason = awaiting_confirmations;
  confirmations = pos 1;
  credited_at = none;
}

-- The transfer once it is credited.
abbrev pub credited_transfer : TokenTransfer
credited_transfer = record sample_transfer { match_status = credited; credited_at = some (pos 5) }

abbrev pub sample_db : InvoiceStatus → TokenTransfer → Db
sample_db status transfer = record {
  invoices = sample_invoice status ∷ [];
  transfers = transfer ∷ [];
  transactions =
      record {
        id = 2;
        network = "ETHEREUM";
        tx_hash = "0xaa";
        status = mined;
        block_number = some (pos 50);
        block_hash = some "0xb1";
        from_address = none;
        to_address = none;
        fee_amount = none;
        confirmations = pos 1;
        mined_at = some (pos 1);
        orphaned_at = none;
      }
      ∷ [];
  addresses = [];
  merchants =
      record {
        id = 7;
        underpayment_policy = review_underpayment;
        overpayment_policy = review_overpayment;
        fee_bps = pos 100;
      }
      ∷ [];
  events = [];
  webhooks = [];
  discrepancies = [];
  ledger = empty_ledger;
  next_id = 10;
}
