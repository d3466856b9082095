-- ===== src/Invoice/StateMachine.antt =====
-- packages/payments/src/state-machine.ts: the gate that every status change passes through.
pub mod Table
pub mod Laws
use mathlib.Core.Bool.{decide}
use crypto_payment.Prelude.{
  Bool, true, false, Option, none, some, List, [], ◌∷◌, map, Result, ok, err, require, or_throw,
  not, find, any, ◌>>=◌, ◌>>◌,
}
use crypto_payment.Invoice.Status.{
  InvoiceStatus, InvoiceStatus-discrete, pending, detected, confirming, paid, underpaid, overpaid,
  expired, cancelled, refunded, WebhookEventType, payment_created, payment_detected,
  payment_confirming, payment_paid, payment_underpaid, payment_overpaid, payment_expired,
  payment_cancelled, payment_refunded,
}
use Table.{
  TransitionActor, system, monitor, merchant, admin, compliance, TransitionRule, transitions,
}

-- `a === b` on states and on actors
unfoldable pub same_status : InvoiceStatus → InvoiceStatus → Bool
unfolding InvoiceStatus-discrete decide
same_status a b = decide (InvoiceStatus-discrete a b)

unfoldable pub TransitionActor-discrete : Discrete TransitionActor
TransitionActor-discrete = hlevel

unfoldable pub same_actor : TransitionActor → TransitionActor → Bool
unfolding TransitionActor-discrete decide
same_actor a b = decide (TransitionActor-discrete a b)

-- The detail of `InvalidTransitionError`, with the states and actors that its message prints.
pub data Detail : Type 0 where
  already_in_state : Detail
  not_permitted : List InvoiceStatus → Detail
  actor_not_allowed : TransitionActor → List TransitionActor → Detail

pub record InvalidTransitionError : Type 0 where
  pub from : InvoiceStatus
  pub to : InvoiceStatus
  pub detail : Detail

unfoldable pub find_rule : InvoiceStatus → InvoiceStatus → Option TransitionRule
unfolding transitions same_status
find_rule from to = find (λ rule. same_status rule.to to) (transitions from)

unfoldable pub can_transition : InvoiceStatus → InvoiceStatus → Bool
can_transition from to = elim (find_rule from to) [ none ↦ false | some _ ↦ true ]

unfoldable pub is_actor_allowed : InvoiceStatus → InvoiceStatus → TransitionActor → Bool
is_actor_allowed from to actor = elim (find_rule from to) [
  | none ↦ false
  | some rule ↦ any (same_actor actor) rule.actors
]

unfoldable pub allowed_transitions : InvoiceStatus → List TransitionRule
unfolding transitions
allowed_transitions from = transitions from

unfoldable pub assert_transition :
    InvoiceStatus → InvoiceStatus → TransitionActor → Result InvalidTransitionError TransitionRule
assert_transition from to actor = do
  require (not (same_status from to)) (record { from = from; to = to; detail = already_in_state })
  rule ←
      or_throw (find_rule from to) (record {
        from = from;
        to = to;
        detail = not_permitted (map (λ r. r.to) (transitions from));
      })
  require (any (same_actor actor) rule.actors)
      (record { from = from; to = to; detail = actor_not_allowed actor rule.actors })
  ok rule

-- `STATUS_EVENTS` and `webhookEventForStatus`
unfoldable pub webhook_event_for_status : InvoiceStatus → Option WebhookEventType
webhook_event_for_status pending = some payment_created
webhook_event_for_status detected = some payment_detected
webhook_event_for_status confirming = some payment_confirming
webhook_event_for_status paid = some payment_paid
webhook_event_for_status underpaid = some payment_underpaid
webhook_event_for_status overpaid = some payment_overpaid
webhook_event_for_status expired = some payment_expired
webhook_event_for_status cancelled = some payment_cancelled
webhook_event_for_status refunded = some payment_refunded
webhook_event_for_status _ = none
