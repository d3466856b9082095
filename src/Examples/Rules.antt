-- ===== src/Examples/Rules.antt =====
-- The pure rules at concrete inputs: amounts, states, transfers and heights.
use crypto_payment.Prelude.{
  ℕ, ◌+◌, ◌-◌, ◌*◌, ◌<◌, ◌≤◌, Bool, true, false, none, some, ok, err, ◌≡◌, ◌≢◌, refl, String, ◌⊎◌,
  ◌↔◌, arith, ◌>>=◌,
}
use crypto_payment.Prelude.Int.{ℤ, pos, negsuc, neg, ◌≤ℤ◌, ◌-ℤ◌, signed, differ, is_neg, abs_ℕ}
use crypto_payment.Money.Decimal.{div_floor, div_ceil, div_half_up}
use crypto_payment.Money.Natural.{amount}
use crypto_payment.Money.Rounding.{
  IsFloor, div_floor-IsFloor, div_half_up_nearest, div_ceil-eq-neg_floor,
}
use crypto_payment.Invoice.Status.{
  InvoiceStatus, detected, confirming, paid, refunded, expired, cancelled, late_payment_review,
  created, pending, underpaid, is_terminal_status, is_payable_status,
}
use crypto_payment.Invoice.StateMachine.{
  is_actor_allowed, assert_transition, InvalidTransitionError, webhook_event_for_status, find_rule,
  same_actor,
}
use crypto_payment.Invoice.StateMachine.Table.{
  TransitionActor, TransitionRule, monitor, merchant, system,
}
use crypto_payment.Invoice.StateMachine.Laws.{
  Reaches, here, next, IsAutomatic, by_system, IsSettled, Anyone, paid_stays-IsSettled,
  assert_transition_iff, every_state_reaches_paid, merchant_only_cancels, late_payment_review_iff,
  webhook_event_injective,
}
use crypto_payment.Payments.Evaluation.{PaymentEvaluation, evaluate_payment, nothing, short, over}
use crypto_payment.Payments.Evaluation.Classify.{evaluate_payment_exact}
use crypto_payment.Payments.Confirmations.{
  count_confirmations, is_confirmed, effective_confirmations, is_within_reorg_window,
  reorg_rewind_target,
}
use crypto_payment.Payments.Confirmations.Laws.{
  confirmed_iff, effective-ge-default, rewind_covers_window,
}
use crypto_payment.Payments.Matcher.{
  MatchInput, evaluate_transfer_match, success, reverted, credited, pending_confirmation,
}
use crypto_payment.Payments.Matcher.Laws.{pending_confirmation_iff, credited_iff}
use crypto_payment.Assets.{resolve_transfer_asset, usdt_ethereum, asset_list}
use crypto_payment.Assets.Resolve.{resolve_transfer_asset_iff, IsIn, same_contract}

div_floor-IsFloor_example :
    (q : ℤ) × (div_floor (negsuc 6) (pos 2) ≡ ok q) × IsFloor (negsuc 6) (pos 2) q
div_floor-IsFloor_example = div_floor-IsFloor (negsuc 6) (pos 2) (λ e. cc e)

div_half_up_nearest_example :
    (m : ℕ) × (div_half_up (negsuc 6) (pos 2)
      ≡ ok (signed (differ (is_neg (negsuc 6)) (is_neg (pos 2))) m))
    × (2 * abs_ℕ (negsuc 6) < 2 * (m * abs_ℕ (pos 2)) + abs_ℕ (pos 2))
    × (2 * (m * abs_ℕ (pos 2)) ≤ 2 * abs_ℕ (negsuc 6) + abs_ℕ (pos 2))
div_half_up_nearest_example = div_half_up_nearest (negsuc 6) (pos 2) (λ e. cc e)

div_ceil-eq-neg_floor_example :
    div_ceil (pos 7) (pos 2) ≡ (do q ← div_floor (neg (pos 7)) (pos 2); ok (neg q))
div_ceil-eq-neg_floor_example = div_ceil-eq-neg_floor (pos 7) (pos 2)

refund : Reaches IsAutomatic paid refunded
unfolding is_actor_allowed find_rule same_actor
refund = next refunded system by_system refl here

paid_stays-IsSettled_example : IsSettled refunded
paid_stays-IsSettled_example = paid_stays-IsSettled refund

assert_transition_iff_example :
    ((is_actor_allowed detected confirming monitor ≡ true) ↔ (
      (r : TransitionRule) × (assert_transition detected confirming monitor ≡ ok r)
      × (r.to ≡ confirming)))
    × ((is_actor_allowed detected confirming monitor ≡ false) ↔ (
        (e : InvalidTransitionError) × (assert_transition detected confirming monitor ≡ err e)
        × (e.from ≡ detected)
        × (e.to ≡ confirming)))
assert_transition_iff_example = assert_transition_iff detected confirming monitor

every_state_reaches_paid_example : Reaches Anyone cancelled paid
every_state_reaches_paid_example = every_state_reaches_paid cancelled

merchant_only_cancels_example :
    (is_actor_allowed pending cancelled merchant ≡ true
      ↔ (cancelled ≡ cancelled)
        × ((pending ≡ created) ⊎ (pending ≡ pending) ⊎ (pending ≡ underpaid)))
    × ((a : TransitionActor) → is_actor_allowed pending created a ≡ false)
merchant_only_cancels_example = merchant_only_cancels pending cancelled

late_payment_review_iff_example :
    (is_actor_allowed expired late_payment_review monitor ≡ true)
    ↔ (monitor ≡ monitor) × ((expired ≡ expired) ⊎ (expired ≡ cancelled))
unfolding is_terminal_status
late_payment_review_iff_example = late_payment_review_iff expired monitor refl

webhook_event_injective_example : paid ≡ paid
unfolding webhook_event_for_status
webhook_event_injective_example = webhook_event_injective paid paid refl refl

-- An invoice of 1000 units with 990 received, at a tolerance of 100 basis points below and none above.
abbrev arrived : ℕ
arrived = 990

evaluate_payment_exact_example :
    (e : PaymentEvaluation) × (evaluate_payment (record {
      required = amount "USDT" 6 1000;
      received = amount "USDT" 6 990;
      underpayment_tolerance_bps = some (pos 100);
      overpayment_tolerance_bps = none;
    })
      ≡ ok e)
    × ((e.outcome ≡ nothing) ↔ (arrived ≡ 0))
    × ((e.outcome ≡ short) ↔ (arrived ≢ 0) × (10000 * 990 + 1000 * 100 < 10000 * 1000))
    × ((e.outcome ≡ over) ↔ (10000 * 1000 + 1000 * 0 < 10000 * 990))
    × ((e.satisfies_invoice ≡ true)
        ↔ (arrived ≢ 0)
          × (10000 * 1000 ≤ 10000 * 990 + 1000 * 100)
          × (10000 * 990 ≤ 10000 * 1000 + 1000 * 0))
    × (e.shortfall ≡ amount "USDT" 6 (1000 - 990))
    × (e.excess ≡ amount "USDT" 6 (990 - 1000))
evaluate_payment_exact_example =
    evaluate_payment_exact "USDT" 6 1000 990 100 0 (some (pos 100)) none (omega arith) refl refl
      (omega arith) (omega arith)

confirmed_iff_example :
    (c : Bool) × ((do n ← count_confirmations (pos 50) (pos 61); is_confirmed n (pos 12)) ≡ ok c)
    × ((c ≡ true) ↔ (50 + 12 ≤ 61 + 1))
confirmed_iff_example = confirmed_iff 50 61 12 (omega arith) (omega arith) (omega arith)

effective-ge-default_example : pos 12 ≤ℤ pos 20
unfolding effective_confirmations
effective-ge-default_example = effective-ge-default (pos 12) (some (pos 20)) refl

rewind_covers_window_example :
    (reorg_rewind_target (pos 100) (pos 105) (pos 12) ≤ℤ pos 100)
    × (pos 1 ≤ℤ reorg_rewind_target (pos 100) (pos 105) (pos 12))
    × (reorg_rewind_target (pos 100) (pos 105) (pos 12) ≤ℤ pos 95)
unfolding is_within_reorg_window ◌-ℤ◌
rewind_covers_window_example =
    rewind_covers_window (pos 100) (pos 105) (pos 12) (pos 95) (omega arith) (omega arith)
      (omega arith) refl

abbrev clean_input : MatchInput
clean_input = record {
  asset_recognized = true;
  meets_minimum = true;
  tx_status = success;
  invoice_status = some pending;
  invoice_expired = false;
  already_credited = false;
  compliance_hold = false;
}

pending_confirmation_iff_example :
    ((evaluate_transfer_match clean_input).status ≡ pending_confirmation) ↔ (
      (false ≡ false)
      × (success ≢ reverted)
      × (true ≡ true)
      × (true ≡ true)
      × (false ≡ false)
      × (false ≡ false)
      × ((s : InvoiceStatus) × (some pending ≡ some s) × (is_payable_status s ≡ true)))
pending_confirmation_iff_example = pending_confirmation_iff clean_input

credited_iff_example : ((evaluate_transfer_match clean_input).status ≡ credited) ↔ (false ≡ true)
credited_iff_example = credited_iff clean_input

abbrev network_name : String
network_name = "ETHEREUM"

resolve_transfer_asset_iff_example :
    (resolve_transfer_asset "ETHEREUM" (some "0xDAC17f958d2ee523a2206206994597c13d831ec7")
      ≡ some usdt_ethereum)
    ↔ (IsIn usdt_ethereum asset_list
        × (true ≡ true)
        × (usdt_ethereum.network ≡ network_name)
        × (same_contract
              (some "0xDAC17f958d2ee523a2206206994597c13d831ec7")
              usdt_ethereum.contract_address
            ≡ true))
resolve_transfer_asset_iff_example =
    resolve_transfer_asset_iff "ETHEREUM" (some "0xDAC17f958d2ee523a2206206994597c13d831ec7")
      usdt_ethereum
