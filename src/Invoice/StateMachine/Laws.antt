-- ===== src/Invoice/StateMachine/Laws.antt =====
-- What the transition table of packages/payments/src/state-machine.ts guarantees.
use crypto_payment.Prelude.{
  Bool-cases, Option-cases, Bool, true, false, find, none, some, map, List, [], ◌∷◌, ok, err, ◌≡◌,
  ◌⊎◌, ◌↔◌, inl, inr, refl, sym, ◌∙◌, arith,
}
use crypto_payment.Invoice.Status.{
  InvoiceStatus, created, pending, detected, confirming, paid, underpaid, overpaid, expired,
  cancelled, failed, refunded, compliance_review_required, late_payment_review,
  reconciliation_required, is_terminal_status, WebhookEventType, InvoiceStatus-discrete,
}
use crypto_payment.Invoice.StateMachine.Table.{
  TransitionActor, system, monitor, merchant, admin, compliance, TransitionRule, transitions,
}
use crypto_payment.Invoice.StateMachine.{
  assert_transition, is_actor_allowed, InvalidTransitionError, webhook_event_for_status, find_rule,
  same_status, same_actor, already_in_state, not_permitted, actor_not_allowed,
}
use mathlib.Core.Bool.{decide, decide_iff}

found_passes {ℓ} :
    {A : Type ℓ} (test : A → Bool) (xs : List A) {x : A} → find test xs ≡ some x → test x ≡ true
found_passes test [] h = cc
found_passes test (y ∷ ys) {x} h = ground (arith, found_passes test ys {x = x})

find_rule-to : (s t : InvoiceStatus) (r : TransitionRule) → find_rule s t ≡ some r → r.to ≡ t
unfolding find_rule same_status
find_rule-to s t r h =
    (decide_iff (InvoiceStatus-discrete r.to t)).0
      (found_passes (λ rule. decide (InvoiceStatus-discrete rule.to t)) (transitions s) h)

-- No state has a rule to itself.
no_self_rule : (s : InvoiceStatus) → find_rule s s ≡ none
unfolding find_rule
no_self_rule created = refl
no_self_rule _ = refl

same_status_iff : (s t : InvoiceStatus) → (same_status s t ≡ true) ↔ (s ≡ t)
unfolding same_status
same_status_iff s t = decide_iff (InvoiceStatus-discrete s t)

self_not_allowed :
    (s t : InvoiceStatus) (a : TransitionActor) → s ≡ t → is_actor_allowed s t a ≡ false
unfolding is_actor_allowed
self_not_allowed s t a e = rw (← e) (ground (arith, no_self_rule s))

-- What the gate answers, by what `isActorAllowed` says.
pub assert_transition-cases :
    (s t : InvoiceStatus) (a : TransitionActor)
    → (is_actor_allowed s t a ≡ true
        → (r : TransitionRule) × (assert_transition s t a ≡ ok r) × (r.to ≡ t))
      × (is_actor_allowed s t a ≡ false
          → (e : InvalidTransitionError) × (assert_transition s t a ≡ err e)
            × (e.from ≡ s)
            × (e.to ≡ t))
unfolding assert_transition is_actor_allowed
assert_transition-cases s t a = elim (Bool-cases (same_status s t)) [
  | inl same ↦ (
    λ h. cc (self_not_allowed s t a ((same_status_iff s t).0 same)),
    λ _. (record { from = s; to = t; detail = already_in_state }, ground arith, refl, refl),
  )
  | inr other ↦ elim (Option-cases (find_rule s t)) [
    | inl absent ↦ (
      λ h. ground arith,
      λ h. (
        record { from = s; to = t; detail = not_permitted (map (λ r. r.to) (transitions s)) },
        ground arith,
        refl,
        refl,
      ),
    )
    | inr (r, found) ↦ (
      λ h. (r, ground arith, find_rule-to s t r found),
      λ h. (
        record { from = s; to = t; detail = actor_not_allowed a r.actors },
        ground arith,
        refl,
        refl,
      ),
    )
  ]
]

-- The gate lets an actor through exactly when `isActorAllowed` says so: then it returns a rule to
-- the requested state. It throws exactly when `isActorAllowed` says no, and the error names the two
-- states that were asked for.
pub assert_transition_iff :
    (s t : InvoiceStatus) (a : TransitionActor)
    → ((is_actor_allowed s t a ≡ true)
        ↔ ((r : TransitionRule) × (assert_transition s t a ≡ ok r) × (r.to ≡ t)))
      × ((is_actor_allowed s t a ≡ false) ↔ (
          (e : InvalidTransitionError) × (assert_transition s t a ≡ err e)
          × (e.from ≡ s)
          × (e.to ≡ t)))
assert_transition_iff s t a =
    let (passes, throws) = assert_transition-cases s t a in
    elim (Bool-cases (is_actor_allowed s t a)) [
      | inl allowed ↦
          let (r, e, _) = passes allowed in
          (
            (passes, λ _. allowed),
            (throws, λ (x, thrown, _, _). let clash : ok r ≡ err x = sym e ∙ thrown in cc clash),
          )
      | inr refused ↦
          let (x, e, _, _) = throws refused in
          (
            (passes, λ (r, returned, _). let clash : ok r ≡ err x = sym returned ∙ e in cc clash),
            (throws, λ _. refused),
          )
    ]

-- A chain of changes, each let through by the gate for an actor that satisfies `P`.
pub data Reaches (P : TransitionActor → Type 0) : InvoiceStatus → InvoiceStatus → Type 0 where
  here : {s : InvoiceStatus} → Reaches P s s
  next :
      {s u : InvoiceStatus} (t : InvoiceStatus) (a : TransitionActor)
      → P a
      → is_actor_allowed s t a ≡ true
      → Reaches P t u
      → Reaches P s u

-- The services that act with no human decision.
pub data IsAutomatic : TransitionActor → Type 0 where
  by_system : IsAutomatic system
  by_monitor : IsAutomatic monitor

abbrev pub IsSettled : InvoiceStatus → Type 0
IsSettled s = (s ≡ paid) ⊎ (s ≡ refunded) ⊎ (s ≡ reconciliation_required)

IsSettled-step :
    (s t : InvoiceStatus) {a : TransitionActor}
    → IsAutomatic a
    → is_actor_allowed s t a ≡ true
    → IsSettled s
    → IsSettled t
unfolding is_actor_allowed find_rule same_actor
IsSettled-step s t by_system h p = ground arith
IsSettled-step s t by_monitor h p = ground arith

IsSettled-stays : {s t : InvoiceStatus} → Reaches IsAutomatic s t → IsSettled s → IsSettled t
IsSettled-stays here p = p
IsSettled-stays (next {s} t a auto h r) p = IsSettled-stays r (IsSettled-step s t auto h p)

-- With no human decision, an invoice that is paid can only stay paid, become refunded or be sent to
-- reconciliation, over any number of changes: it never falls back to an unpaid state.
pub paid_stays-IsSettled : {t : InvoiceStatus} → Reaches IsAutomatic paid t → IsSettled t
paid_stays-IsSettled r = IsSettled-stays r (inl refl)

abbrev pub Anyone : TransitionActor → Type 0
Anyone a = Unit

from_confirming : Reaches Anyone confirming paid
unfolding is_actor_allowed find_rule same_actor
from_confirming = next paid monitor tt refl here

from_pending : Reaches Anyone pending paid
unfolding is_actor_allowed find_rule same_actor
from_pending = next detected monitor tt refl (next confirming monitor tt refl from_confirming)

from_review : Reaches Anyone late_payment_review paid
unfolding is_actor_allowed find_rule same_actor
from_review = next paid admin tt refl here

from_reconciliation : Reaches Anyone reconciliation_required paid
unfolding is_actor_allowed find_rule same_actor
from_reconciliation = next paid admin tt refl here

-- From every state there is a chain of permitted changes to `PAID`: no state is a trap in which the
-- funds of an invoice can never be accounted for.
pub every_state_reaches_paid : (s : InvoiceStatus) → Reaches Anyone s paid
unfolding is_actor_allowed find_rule same_actor
every_state_reaches_paid created = next pending system tt refl from_pending
every_state_reaches_paid pending = from_pending
every_state_reaches_paid detected = next confirming monitor tt refl from_confirming
every_state_reaches_paid confirming = from_confirming
every_state_reaches_paid paid = here
every_state_reaches_paid underpaid = next paid monitor tt refl here
every_state_reaches_paid overpaid = next paid monitor tt refl here
every_state_reaches_paid expired = next late_payment_review monitor tt refl from_review
every_state_reaches_paid cancelled = next late_payment_review monitor tt refl from_review
every_state_reaches_paid failed = next reconciliation_required system tt refl from_reconciliation
every_state_reaches_paid refunded = next reconciliation_required system tt refl from_reconciliation
every_state_reaches_paid compliance_review_required = next paid compliance tt refl here
every_state_reaches_paid late_payment_review = from_review
every_state_reaches_paid reconciliation_required = from_reconciliation

-- No actor can move an invoice back to `CREATED`, and a merchant can do nothing but cancel an
-- invoice that is created, pending or underpaid.
pub merchant_only_cancels :
    (s t : InvoiceStatus)
    → (is_actor_allowed s t merchant ≡ true
        ↔ (t ≡ cancelled) × ((s ≡ created) ⊎ (s ≡ pending) ⊎ (s ≡ underpaid)))
      × ((a : TransitionActor) → is_actor_allowed s created a ≡ false)
unfolding is_actor_allowed find_rule same_actor
merchant_only_cancels s t = (ground arith, λ a. ground arith)

-- Of the terminal states, exactly `EXPIRED` and `CANCELLED` accept a late payment, and the monitor
-- alone may record it; a payment for an invoice that is paid, failed or refunded has no such edge.
pub late_payment_review_iff :
    (s : InvoiceStatus) (a : TransitionActor)
    → is_terminal_status s ≡ true
    → (is_actor_allowed s late_payment_review a ≡ true
        ↔ (a ≡ monitor) × ((s ≡ expired) ⊎ (s ≡ cancelled)))
unfolding is_actor_allowed find_rule same_actor is_terminal_status
late_payment_review_iff s a h = ground arith

-- Two states never share a webhook event: a merchant can tell from an event which state the invoice
-- entered.
pub webhook_event_injective :
    (s t : InvoiceStatus) {e : WebhookEventType}
    → webhook_event_for_status s ≡ some e
    → webhook_event_for_status t ≡ some e
    → s ≡ t
unfolding webhook_event_for_status
webhook_event_injective s t p q = ground arith
