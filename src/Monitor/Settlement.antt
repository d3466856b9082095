-- ===== src/Monitor/Settlement.antt =====
-- The confirmation engine (apps/blockchain-monitor/src/monitor.service.ts): `updateConfirmations`,
-- `advanceConfirming` and `finalizeInvoice`.
use crypto_payment.Prelude.{
  ℕ, ◌+◌, String, Bool, true, false, not, ◌&&◌, ◌||◌, Option, none, some, List, [], ◌∷◌, ◌==◌,
  str_eq, filter, if◌then◌else◌,
}
use crypto_payment.Prelude.Int.{ℤ, pos, ◌+ℤ◌, leb_ℤ, ltb_ℤ, is_zero}
use crypto_payment.Prelude.Tx.{
  gets, lift, or_throw, pure, for_each, each_in_transaction, when, ◌>>=◌, ◌>>◌,
}
use crypto_payment.Money.Amount.{from_units}
use crypto_payment.Invoice.Status.{InvoiceStatus, confirming, paid, underpaid, overpaid}
use crypto_payment.Invoice.StateMachine.{can_transition, same_status}
use crypto_payment.Payments.Evaluation.{evaluate_payment, status_for_outcome}
use crypto_payment.Payments.Confirmations.{is_confirmed, effective_confirmations}
use crypto_payment.Payments.Matcher.{TransferMatchStatus, credited, pending_confirmation}
use crypto_payment.Ledger.Posting.{post_payment_credit}
use crypto_payment.Monitor.Store.{
  Db, Invoice, TokenTransfer, Merchant, UnderpaymentPolicy, accept_partial, OverpaymentPolicy,
  accept_full, MonitorTx, MonitorError, record_not_found, from_payment, in_ledger,
  confirmation_started, payment_status,
}
use crypto_payment.Monitor.Records.{
  read_invoice, update_invoice, update_transfer, assert_monitor, record_event, emit_webhook,
}
use crypto_payment.Prelude.{find}

-- The writes of `advanceConfirming`, once the gate has been asked.
unfoldable pub start_confirming : ℕ → InvoiceStatus → MonitorTx (Unit {0})
start_confirming invoice_id status = do
  assert_monitor status confirming
  update_invoice invoice_id (λ i. record i { status = confirming; version = i.version + 1 })
  record_event invoice_id confirmation_started status confirming none
  emit_webhook invoice_id confirming

unfoldable pub advance_confirming : Invoice → ℤ → MonitorTx (Unit {0})
advance_confirming invoice confirmations =
    if ltb_ℤ confirmations (pos 1)
    then pure tt
    else if can_transition invoice.status confirming
    then start_confirming invoice.id invoice.status
    else pure tt

unfoldable pub is_settleable : InvoiceStatus → Bool
is_settleable status =
    can_transition status paid || can_transition status underpaid || can_transition status overpaid

abbrev pub awaits_or_credited : TransferMatchStatus → Bool
awaits_or_credited credited = true
awaits_or_credited pending_confirmation = true
awaits_or_credited _ = false

abbrev pub belongs_to : ℕ → Option ℕ → Bool
belongs_to invoice_id none = false
belongs_to invoice_id (some id) = id == invoice_id

-- The `findMany` of `finalizeInvoice`, and its filter by confirmations.
unfoldable pub matched_transfers : ℕ → Db → List TokenTransfer
matched_transfers invoice_id db =
    filter (λ t. belongs_to invoice_id t.invoice_id && awaits_or_credited t.match_status)
      db.transfers

unfoldable pub confirmed_transfers : ℤ → List TokenTransfer → List TokenTransfer
confirmed_transfers required transfers = filter (λ t. leb_ℤ required t.confirmations) transfers

unfoldable pub sum_amounts : List TokenTransfer → ℤ
sum_amounts [] = pos 0
sum_amounts (t ∷ ts) = t.amount +ℤ sum_amounts ts

-- `Math.max(...)` over the confirmations of the transfers, of which there is one at least.
unfoldable pub max_confirmations : List TokenTransfer → ℤ
max_confirmations [] = pos 0
max_confirmations (t ∷ []) = t.confirmations
max_confirmations (t ∷ u ∷ ts) =
    let rest = max_confirmations (u ∷ ts) in
    if ltb_ℤ t.confirmations rest then rest else t.confirmations

abbrev pub accepts_full : OverpaymentPolicy → Bool
accepts_full accept_full = true
accepts_full _ = false

abbrev pub accepts_partial : UnderpaymentPolicy → Bool
accepts_partial accept_partial = true
accepts_partial _ = false

unfoldable pub auto_accept : InvoiceStatus → Merchant → Bool
auto_accept target merchant =
    same_status target paid
    || same_status target overpaid && accepts_full merchant.overpayment_policy
    || same_status target underpaid && accepts_partial merchant.underpayment_policy

-- The credit of one transfer, which is marked where the posting is new.
unfoldable pub credit_transfer : ℤ → Invoice → Merchant → TokenTransfer → MonitorTx (Unit {0})
credit_transfer now invoice merchant transfer = do
  result ← in_ledger (
      post_payment_credit (record {
        merchant_id = invoice.merchant_id;
        invoice_id = invoice.id;
        token_transfer_id = transfer.id;
        network = invoice.network;
        asset_symbol = invoice.payment_asset;
        asset_decimals = invoice.payment_decimals;
        gross_amount = from_units transfer.amount invoice.payment_asset invoice.payment_decimals;
        fee_bps = merchant.fee_bps;
        idempotency_key = record {
          network = transfer.network;
          tx_hash = transfer.tx_hash;
          transfer_index = transfer.transfer_index;
        };
      }))
  when (not result.already_posted) (
      update_transfer transfer.id
        (λ t. record t { match_status = credited; credited_at = some now }))

-- `paidAt` alone where the target is `PAID`; otherwise the second move, which the merchant's policy
-- accepts.
unfoldable pub mark_paid : ℤ → ℕ → InvoiceStatus → MonitorTx (Unit {0})
mark_paid now invoice_id target =
    if same_status target paid
    then update_invoice invoice_id (λ i. record i { paid_at = some now })
    else (do
      assert_monitor target paid
      update_invoice invoice_id (λ i. record i { status = paid; paid_at = some now })
      record_event invoice_id (payment_status paid) target paid (
          some (
            if same_status target overpaid
            then "overpayment_policy:ACCEPT_FULL"
            else "underpayment_policy:ACCEPT_PARTIAL"))
      emit_webhook invoice_id paid)

unfoldable pub accept_payment :
    ℤ → Invoice → Merchant → InvoiceStatus → List TokenTransfer → MonitorTx (Unit {0})
accept_payment now invoice merchant target transfers = do
  mark_paid now invoice.id target
  for_each (confirmed_transfers invoice.required_confirmations transfers)
      (credit_transfer now invoice merchant)

-- The move to the state that the evaluation asks for.
unfoldable pub settle :
    ℤ → Invoice → Merchant → InvoiceStatus → List TokenTransfer → ℤ → MonitorTx (Unit {0})
settle now invoice merchant target transfers total = do
  assert_monitor invoice.status target
  update_invoice invoice.id (λ i. record i {
    status = target;
    received_amount = total;
    confirmed_amount = total;
    confirmation_count = max_confirmations transfers;
  })
  record_event invoice.id (payment_status target) invoice.status target none
  emit_webhook invoice.id target
  when (auto_accept target merchant) (accept_payment now invoice merchant target transfers)

unfoldable pub settle_if_permitted :
    ℤ → Invoice → Merchant → Option InvoiceStatus → List TokenTransfer → ℤ → MonitorTx (Unit {0})
settle_if_permitted now invoice merchant none transfers total = pure tt
settle_if_permitted now invoice merchant (some target) transfers total =
    if can_transition invoice.status target
    then settle now invoice merchant target transfers total
    else pure tt

unfoldable pub evaluate_total : ℤ → Invoice → List TokenTransfer → ℤ → MonitorTx (Unit {0})
evaluate_total now invoice transfers total = do
  found ← gets (λ db. find (λ (m : Merchant). m.id == invoice.merchant_id) db.merchants)
  merchant ← or_throw found (record_not_found invoice.merchant_id)
  evaluation ← lift (
      from_payment (
        evaluate_payment (record {
          required =
              from_units invoice.crypto_amount invoice.payment_asset invoice.payment_decimals;
          received = from_units total invoice.payment_asset invoice.payment_decimals;
          underpayment_tolerance_bps = some invoice.underpayment_tolerance_bps;
          overpayment_tolerance_bps = some invoice.overpayment_tolerance_bps;
        })))
  settle_if_permitted now invoice merchant (status_for_outcome evaluation.outcome) transfers total

unfoldable pub finalize_eligible : ℤ → Invoice → MonitorTx (Unit {0})
finalize_eligible now invoice = do
  transfers ← gets (matched_transfers invoice.id)
  let total = sum_amounts (confirmed_transfers invoice.required_confirmations transfers)
  (if is_zero total then pure tt else evaluate_total now invoice transfers total)

unfoldable pub finalize_invoice : ℤ → ℕ → MonitorTx (Unit {0})
finalize_invoice now invoice_id = do
  invoice ← read_invoice invoice_id
  (if is_settleable invoice.status then finalize_eligible now invoice else pure tt)

-- `isConfirmed(confirmations, effectiveConfirmations(required))`
unfoldable pub reached_threshold : ℤ → ℤ → MonitorTx Bool
reached_threshold confirmations required = do
  effective ← lift (from_payment (effective_confirmations required none))
  lift (from_payment (is_confirmed confirmations effective))

unfoldable pub confirm_invoice : ℤ → ℤ → Option ℕ → MonitorTx (Unit {0})
confirm_invoice now confirmations none = pure tt
confirm_invoice now confirmations (some invoice_id) = do
  invoice ← read_invoice invoice_id
  advance_confirming invoice confirmations
  reached ← reached_threshold confirmations invoice.required_confirmations
  when reached (finalize_invoice now invoice.id)

-- One round of `updateConfirmations`, for a transfer that awaits its confirmations.
unfoldable pub confirm_transfer : (String → ℤ) → ℤ → TokenTransfer → MonitorTx (Unit {0})
confirm_transfer get_confirmations now transfer = do
  let confirmations = get_confirmations transfer.tx_hash
  update_transfer transfer.id (λ t. record t { confirmations = confirmations })
  confirm_invoice now confirmations transfer.invoice_id

abbrev pub is_uncredited : Option ℤ → Bool
is_uncredited none = true
is_uncredited (some _) = false

abbrev pub awaits_confirmation : TransferMatchStatus → Bool
awaits_confirmation pending_confirmation = true
awaits_confirmation _ = false

unfoldable pub pending_transfers : String → Db → List TokenTransfer
pending_transfers network db =
    filter
      (λ t.
        str_eq t.network network
        && awaits_confirmation t.match_status
        && is_uncredited t.credited_at)
      db.transfers

-- `get_confirmations` stands for the adapter's answers, `{ confirmations }` by transaction hash.
unfoldable pub update_confirmations : (String → ℤ) → ℤ → String → Db → Db × Option MonitorError
update_confirmations get_confirmations now network db =
    each_in_transaction (pending_transfers network db) (confirm_transfer get_confirmations now) db
